-- ===== src/Web/Respond/Redirect.antt =====
-- web.Redirect: a code outside 3xx is refused, any other is sent with the location.
use httper.GoError.{message}
use httper.Web.World.{
  Header, Request, World, Result, done, with_header, plain, get_header, set_header, write, pure,
  ◌>>=◌, is_status_code, is_informational,
}
use httper.Web.World.Laws.{get_header-set_header, write_header_lem}
use httper.Web.Context.{set_status_code}
use httper.Web.Respond.{has_header, is_method, http_redirect, redirect}
use httper.Base.{
  ℕ, ◌≤◌, String, ◌<>◌, ◌≡◌, refl, ◌∙◌, ◌⊎◌, inl, inr, true, false, not, ◌&&◌, ◌||◌, none, some,
  arith, if◌then◌else◌, Bool-cases, ℤ, pos, negsuc, ltb_ℤ, show_ℤ,
}

module _ (location : Request → String → String) (r : Request) (url : String) where
  -- The header at the time of the status line.
  pub redirect_header : Header → Header
  redirect_header h =
      let located = set_header "Location" (location r url) h in
      if not (has_header "Content-Type" h) && (is_method r "GET" || is_method r "HEAD")
      then set_header "Content-Type" "text/html; charset=utf-8" located
      else located

  location-redirect_header :
      (h : Header) → get_header "Location" (redirect_header h) ≡ location r url
  unfolding redirect_header
  location-redirect_header h = ground (
    arith,
    get_header-set_header "Location" "Location" (location r url) h,
    get_header-set_header "Location" "Content-Type" "text/html; charset=utf-8"
        (set_header "Location" (location r url) h),
  )

  abbrev Sends : ℤ → Header → Result (Unit {0}) × World → Type 0
  Sends code h (res, w) = (res ≡ done tt) × (w.response.sent ≡ some (code, h))

  -- The state when http.Redirect writes its status line.
  located : World → World
  located w = record w {
    response = record w.response { header = redirect_header w.response.header };
  }

  after_status : World → ℤ → Result (Unit {0}) × World
  after_status w code =
      (if not (has_header "Content-Type" w.response.header) && is_method r "GET"
          then (do _ ← write (plain (location r url)); pure tt)
          else pure tt)
        (record (located w) {
          response = record (located w).response {
            sent = some (code, redirect_header w.response.header);
          };
        })

  http_redirect_after :
      (code : ℤ) (w : World)
      → w.response.sent ≡ none
      → is_status_code code ≡ true
      → is_informational code ≡ false
      → http_redirect location r url code w ≡ after_status w code
  unfolding http_redirect after_status located redirect_header
  http_redirect_after code w unsent valid final =
      let to = set_header "Location" (location r url) w.response.header in
      elim (Bool-cases (
        not (has_header "Content-Type" w.response.header)
        && (is_method r "GET" || is_method r "HEAD"))) [
          | inl e ↦ rw (
            e,
            write_header_lem code
                (with_header (set_header "Content-Type" "text/html; charset=utf-8" to) w) unsent
                valid final,
          )
          | inr e ↦ rw (e, write_header_lem code (with_header to w) unsent valid final)
        ]

  after_status-Sends :
      (code : ℤ) (w : World) → Sends code (redirect_header w.response.header) (after_status w code)
  unfolding after_status write located
  after_status-Sends code w =
      elim (Bool-cases (not (has_header "Content-Type" w.response.header) && is_method r "GET")) [
        | inl e ↦ rw e (ground arith)
        | inr e ↦ rw e (refl, refl)
      ]

  http_redirect-Sends :
      (code : ℤ) (w : World)
      → w.response.sent ≡ none
      → is_status_code code ≡ true
      → is_informational code ≡ false
      → Sends code (redirect_header w.response.header) (http_redirect location r url code w)
  http_redirect-Sends code w unsent valid final =
      rw (http_redirect_after code w unsent valid final) (after_status-Sends code w)

  -- Outside 300 to 399 Redirect reports an error and leaves everything as it was.
  redirect_refuses :
      (code : ℤ) (w : World)
      → (ltb_ℤ code (pos 300) || ltb_ℤ (pos 399) code) ≡ true
      → redirect location r url code w
        ≡ (done (some (message ("invalid redirect code: " <> show_ℤ code))), w)
  unfolding redirect
  redirect_refuses code w h = rw h

  -- Storing the status touches neither the response nor the flow.
  record IsStored (w : World) (s : Result (Unit {0}) × World) : Type 0 where
    goes_on : s.0 ≡ done tt
    same : s.1.response ≡ w.response

  set_status_code-IsStored : (code : ℤ) (w : World) → IsStored w (set_status_code r.ctx code w)
  unfolding set_status_code
  set_status_code-IsStored code w = ground arith

  in_range :
      (n : ℕ) → 300 ≤ n → n ≤ 399 → (ltb_ℤ (pos n) (pos 300) || ltb_ℤ (pos 399) (pos n)) ≡ false
  in_range n lo hi = ground arith

  valid_status : (n : ℕ) → 300 ≤ n → n ≤ 399 → is_status_code (pos n) ≡ true
  valid_status n lo hi = ground arith

  final_status : (n : ℕ) → 300 ≤ n → n ≤ 399 → is_informational (pos n) ≡ false
  final_status n lo hi = ground arith

  redirect_accepts :
      (n : ℕ) (w : World)
      → w.response.sent ≡ none
      → 300 ≤ n
      → n ≤ 399
      → ((redirect location r url (pos n) w).0 ≡ done none)
        × ((redirect location r url (pos n) w).1.response.sent
            ≡ some (pos n, redirect_header w.response.header))
  unfolding redirect
  redirect_accepts n w unsent lo hi =
      let stored = set_status_code-IsStored (pos n) w in
      let w' = (set_status_code r.ctx (pos n) w).1 in
      let sends =
        http_redirect-Sends (pos n) w' (rw stored.same unsent) (valid_status n lo hi)
          (final_status n lo hi) in
      rw (in_range n lo hi, stored.goes_on, sends.0) (refl, sends.1 ∙ rw stored.same refl)

  -- What Redirect did with a code: refused it, or sent it with the location.
  abbrev pub Refused : ℤ → World → Type 0
  Refused code w =
      ((ltb_ℤ code (pos 300) || ltb_ℤ (pos 399) code) ≡ true)
      × (redirect location r url code w
          ≡ (done (some (message ("invalid redirect code: " <> show_ℤ code))), w))

  abbrev pub Sent : ℤ → World → Type 0
  Sent code w =
      (h : Header) × ((ltb_ℤ code (pos 300) || ltb_ℤ (pos 399) code) ≡ false)
      × ((redirect location r url code w).0 ≡ done none)
      × ((redirect location r url code w).1.response.sent ≡ some (code, h))
      × (get_header "Location" h ≡ location r url)

  -- Redirect, on a response of which nothing is sent: a code outside 300 to 399 is refused with an
  -- error, and neither the response nor the stored status changes; any other code is sent as the
  -- status, with the target as the Location header, and no error is reported.
  pub redirect_lem : (code : ℤ) (w : World) → w.response.sent ≡ none → Refused code w ⊎ Sent code w
  redirect_lem (negsuc n) w unsent = inl (refl, redirect_refuses (negsuc n) w refl)
  redirect_lem (pos n) w unsent =
      elim (Bool-cases (ltb_ℤ (pos n) (pos 300) || ltb_ℤ (pos 399) (pos n))) [
        | inl out ↦ inl (out, redirect_refuses (pos n) w out)
        | inr within ↦
            let done_sent = redirect_accepts n w unsent (ground arith) (ground arith) in
            inr (
              redirect_header w.response.header,
              within,
              done_sent.0,
              done_sent.1,
              location-redirect_header w.response.header,
            )
      ]
