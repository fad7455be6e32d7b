-- ===== src/Web/Context/Laws.antt =====
-- What is stored through a context is read back through it.
use httper.Base.{get_elem?-set_self, ℕ, ◌≡◌, inl, inr, some, arith, Option-cases, ℤ}
use httper.Web.World.{Ctx, BaseValues, World}
use httper.Web.Context.{set_status_code, get_values, value}

-- A status stored through a context that has values is read back through it, and the rest of the
-- values is kept.
pub get_values-set_status_code :
    (time_now : ℕ) (ctx : Ctx) (code : ℤ) (w : World) {v : BaseValues}
    → value ctx w ≡ some v
    → get_values time_now ctx (set_status_code ctx code w).1 ≡ record v { status_code = code }
unfolding get_values set_status_code
get_values-set_status_code time_now ctx code w {v} h = elim (Option-cases ctx.base) [
  | inl none_there ↦ ground arith
  | inr (p, at) ↦
      ground (arith, get_elem?-set_self w.values p (record v { status_code = code }) {x = v})
]
