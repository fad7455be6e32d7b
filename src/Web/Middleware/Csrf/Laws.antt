-- ===== src/Web/Middleware/Csrf/Laws.antt =====
-- Which requests the CSRF middleware lets through, and what the others get.
use httper.Base.{
  Option-cases, Bool-cases, refl, none, some, inl, inr, false, [], pos, ◌∷◌, eq_iff, arith, String,
  ◌≡◌, ◌⊎◌, true, Option, List,
}
use httper.Web.Context.{set_status_code}
use httper.Web.World.{
  http_error, set_header, del_header, plain, done, World, Ctx, Handler, Request, get_header,
}
use httper.Web.Respond.Laws.{IsUnsent}
use httper.Web.Middleware.Csrf.{deny, csrf_handler, check_request, is_safe_method, is_host, trusts}

module _ (origin_host : String → Option String) (trusted : List String) where
  -- The method is safe, or the browser says that the request is of the same origin or the user's
  -- own, or the origin is trusted, or, where the browser says nothing, there is no origin or it is
  -- the host.
  abbrev pub Passes : Request → Type 0
  Passes r =
      (is_safe_method r.method ≡ true)
      ⊎ ((get_header "Sec-Fetch-Site" r.header ≡ "same-origin")
          ⊎ ((get_header "Sec-Fetch-Site" r.header ≡ "none")
              ⊎ ((trusts trusted (get_header "Origin" r.header) ≡ true)
                  ⊎ ((get_header "Sec-Fetch-Site" r.header ≡ "")
                      × ((get_header "Origin" r.header ≡ "")
                          ⊎ (is_host (origin_host (get_header "Origin" r.header)) r.host
                              ≡ true))))))

  check_request-Passes : (r : Request) → check_request origin_host trusted r ≡ true → Passes r
  unfolding check_request
  check_request-Passes r h = ground (
    arith,
    eq_iff (get_header "Sec-Fetch-Site" r.header) "",
    eq_iff (get_header "Sec-Fetch-Site" r.header) "same-origin",
    eq_iff (get_header "Sec-Fetch-Site" r.header) "none",
    eq_iff (get_header "Origin" r.header) "",
    eq_iff "same-origin" "",
    eq_iff "none" "",
  )

  pub Passes-check_request : (r : Request) → Passes r → check_request origin_host trusted r ≡ true
  unfolding check_request
  Passes-check_request r h = ground (
    arith,
    eq_iff (get_header "Sec-Fetch-Site" r.header) "",
    eq_iff (get_header "Sec-Fetch-Site" r.header) "same-origin",
    eq_iff (get_header "Sec-Fetch-Site" r.header) "none",
    eq_iff (get_header "Origin" r.header) "",
    eq_iff "same-origin" "",
    eq_iff "none" "",
  )

  module _ (handler : Handler) (ctx : Ctx) (r : Request) where
    abbrev pub Denied : World → Type 0
    Denied w =
        ((csrf_handler origin_host trusted handler ctx r w).0 ≡ done none)
        × ((csrf_handler origin_host trusted handler ctx r w).1.response.body
            ≡ plain "csrf: Forbidden\n" ∷ [])
        × ((csrf_handler origin_host trusted handler ctx r w).1.response.sent
            ≡ some (
              pos 403,
              set_header "X-Content-Type-Options" "nosniff" (
                  set_header "Content-Type" "text/plain; charset=utf-8"
                    (del_header "Content-Length" w.response.header)),
            ))

    denied :
        (w : World)
        → check_request origin_host trusted (record r { ctx = ctx }) ≡ false
        → IsUnsent w
        → Denied w
    unfolding csrf_handler deny set_status_code http_error
    denied w refused unsent = rw refused (elim (Option-cases ctx.base) [
      | inl e ↦ (ground arith, ground arith, ground arith)
      | inr (p, e) ↦ (ground arith, ground arith, ground arith)
    ])

    -- On a response of which nothing is sent: a request that passes the check is the handler's, and
    -- any other is answered with 403 and the text "csrf: Forbidden" alone, with no error.
    pub csrf_handler_lem :
        (w : World)
        → IsUnsent w
        → (Passes r
            × (csrf_handler origin_host trusted handler ctx r w
                ≡ handler ctx (record r { ctx = ctx }) w))
          ⊎ ((Passes r → ⊥) × Denied w)
    unfolding csrf_handler
    csrf_handler_lem w unsent =
        let r' = record r { ctx = ctx } in
        elim (Bool-cases (check_request origin_host trusted r')) [
          | inl passes ↦ inl (check_request-Passes r' passes, rw passes refl)
          | inr refused ↦
              inr (λ h. cc (refused, Passes-check_request r' h), denied w refused unsent)
        ]

    pub csrf_handler-denies : (w : World) → (Passes r → ⊥) → IsUnsent w → Denied w
    csrf_handler-denies w refused unsent = elim (csrf_handler_lem w unsent) [
      | inl (passes, e) ↦ absurd (refused passes)
      | inr (h, is_denied) ↦ is_denied
    ]
