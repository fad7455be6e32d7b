-- ===== src/Web/World/Laws.antt =====
-- Headers and the response writer.
use httper.Web.World.{
  Header, World, done, get_header, set_header, del_header, write_header, is_informational,
  is_status_code,
}
use httper.Base.{
  String, ◌≡◌, refl, true, false, none, some, [], ◌∷◌, arith, str_eq, eq_iff, if◌then◌else◌, ℤ,
}

get_header-del_header :
    (j k : String) (h : Header)
    → get_header j (del_header k h) ≡ (if str_eq k j then "" else get_header j h)
unfolding get_header del_header
get_header-del_header j k [] = ground arith
get_header-del_header j k ((i, u) ∷ h) =
    ground (arith, eq_iff k j, eq_iff i k, eq_iff i j, get_header-del_header j k h)

pub get_header-set_header :
    (j k v : String) (h : Header)
    → get_header j (set_header k v h) ≡ (if str_eq k j then v else get_header j h)
unfolding get_header set_header del_header
get_header-set_header j k v [] = refl
get_header-set_header j k v ((i, u) ∷ h) = ground (
  arith,
  eq_iff k j,
  eq_iff i k,
  eq_iff i j,
  get_header-del_header j k h,
  get_header-set_header j k v h,
)

-- The first status line that is a final one is sent with the header at that time.
pub write_header_lem :
    (code : ℤ) (w : World)
    → w.response.sent ≡ none
    → is_status_code code ≡ true
    → is_informational code ≡ false
    → write_header code w ≡ (
      done tt,
      record w { response = record w.response { sent = some (code, w.response.header) } },
    )
unfolding write_header
write_header_lem code w unsent valid final = ground arith
