-- ===== src/EndToEnd.antt =====
-- The client against a server of the same repository: Do of client/client.go on what an App of
-- web/mux/mux.go answers. What net/http does between the two is stated here: the answer arrives.
use httper.Base.{
  ◌∙◌, foldl, true, subst, ℕ, String, ◌≡◌, ap, Bool, false, Option, none, some, List, [], ◌∷◌, take,
  ℤ, eq_ℤ,
}
use httper.Client.Exec.{
  no_do_opts, decoded, Stream, Response, DoOption, apply_do, do_func, do_request,
}
use httper.GoError.{GoError, FieldError, as_field_errors, unexpected_status, ok}
use httper.Web.World.{
  Ctx, Payload, BaseValues, Request, World, done, Handler, Middleware, Header, error_json,
}
use httper.Web.Context.{value}
use httper.Web.Errs.{Caller}
use httper.Web.Mux.Registering.{Registration}
use httper.Web.Mux.{App, Router, Table, serve_http}
use httper.Web.Respond.{respond_json, marshalled}
use httper.Web.Respond.Laws.{IsFinal, IsUnsent}
use httper.Web.Middleware.Errors.Shown.{shown_code, shown_text}
use httper.Web.Middleware.Stack.{
  IsRoute, start_ctx, start_request, begun, serve_http-app_error, serve_http-respond_json,
}
use httper.Client.Exec.Laws.{IsStatusError, exec_unexpected, exec-none_iff, exec-state}

-- What net/http brings of the response that the server has written: its status and, as bytes, its
-- body, which can be read to the end.
pub record Delivers (bytes : Payload → List ℕ) (w : World) (resp : Response) (b : Stream)
    : Type 0 where
  pub status : (code : ℤ) (h : Header) → w.response.sent ≡ some (code, h) → resp.status_code ≡ code
  pub whole : (p : Payload) → w.response.body ≡ p ∷ [] → b.rest ≡ bytes p
  pub intact : b.read_err ≡ none

module _ {D S : Type 0} (text : List ℕ → String)
    (decode : Bool → D → Stream → S → Option GoError × Stream × S) where
  -- Do with the error for another status than the expected one
  abbrev pub Refused : List (DoOption D) → ℤ → Response → Stream → S → ℤ → List ℕ → Type 0
  Refused opts exp_code resp b s code body =
      (e : GoError) × ((do_request text decode opts exp_code (ok (resp, b)) s).0
        ≡ some (unexpected_status code (text (take 4096 body)) e))
      × IsStatusError code e
      × ((do_request text decode opts exp_code (ok (resp, b)) s).2 ≡ s)

  do_request-Refused :
      (opts : List (DoOption D)) (exp_code : ℤ) (resp : Response) (b : Stream) (s : S)
      → eq_ℤ resp.status_code exp_code ≡ false
      → b.read_err ≡ none
      → Refused opts exp_code resp b s resp.status_code b.rest
  unfolding do_request
  do_request-Refused opts exp_code resp b s other reads =
      let (e, failed, named, closed, kept) =
        exec_unexpected text exp_code (do_func text decode (foldl apply_do no_do_opts opts)) resp b
          s other reads in
      (e, failed, named, kept)

  -- Do with no error, which has stored `stored`
  abbrev pub Accepted : List (DoOption D) → ℤ → Response → Stream → S → S → Type 0
  Accepted opts exp_code resp b s stored =
      ((do_request text decode opts exp_code (ok (resp, b)) s).0 ≡ none)
      × ((do_request text decode opts exp_code (ok (resp, b)) s).2 ≡ stored)

  do_request-Accepted :
      (opts : List (DoOption D)) (d : D) (n : Bool) (exp_code : ℤ) (resp : Response) (b b' : Stream)
      (s stored : S)
      → eq_ℤ resp.status_code exp_code ≡ true
      → foldl apply_do no_do_opts opts ≡ record { response_body = some d; use_json_num = n }
      → decode n d b s ≡ (none, b', stored)
      → Accepted opts exp_code resp b s stored
  unfolding do_request
  do_request-Accepted opts d n exp_code resp b b' s stored same chosen reads =
      let fn = do_func text decode (foldl apply_do no_do_opts opts) in
      let ran : fn resp b s ≡ (none, b', stored) =
        ap (λ o. do_func text decode o resp b s) chosen ∙ ap (decoded text decode) reads in
      (
        (exec-none_iff text exp_code fn resp b s).1 (same, ap (λ r. r.0) ran),
        exec-state text exp_code fn resp b s same ∙ ap (λ r. r.2) ran,
      )

module _ (fields_text : List FieldError → String) (caller : Caller) (time_now : ℕ)
    (stack : World → String) (router : Router) (handler : Handler) (r : Request) (w : World)
    (t : Table) (mw : List Middleware) (route : Registration) (a : App) (t₀ t' : Table)
    (bytes : Payload → List ℕ) (resp : Response) (b : Stream)
    (arrives : Delivers bytes (serve_http router a t' r w).1 resp b)
    (routed : IsRoute fields_text caller time_now stack router handler r w t mw route a t₀ t')
    {D S : Type 0} (text : List ℕ → String)
    (decode : Bool → D → Stream → S → Option GoError × Stream × S) (exp_code : ℤ) (s : S) where
  abbrev ctx : Ctx
  ctx = start_ctx fields_text caller time_now stack router handler r w

  abbrev asked : Request
  asked = start_request fields_text caller time_now stack router handler r w

  abbrev from : World
  from = begun fields_text caller time_now stack router handler r w

  -- A route of an App of New with Logger, Errors and Panics, in any order, and no other middleware,
  -- registered under a new pattern, on the app or through Mount and Use, over a connection that
  -- works, whose handler, with any middleware around it that Use added or that is its own, returns
  -- an error that wraps no field errors, before it wrote anything and with its values still stored;
  -- and a client that sends a request to it with Do and expects another status than that of the
  -- *errs.Error that the error wraps, or than 500 where it wraps none: Do returns the error for
  -- that status with the first 4096 bytes of the JSON of code and message, the message of an
  -- internal error replaced by the text of the status; it matches ErrUnexpectedStatusCode, and
  -- ErrAuthFailure exactly for 401 and 403, and the destination is as it was. The code must be one
  -- that a response with a body can end with.
  pub do_request-app_error :
      (w' : World) (e : GoError) {v : BaseValues} (opts : List (DoOption D))
      → handler ctx asked from ≡ (done (some e), w')
      → as_field_errors e ≡ none
      → IsFinal (shown_code e)
      → IsUnsent w'
      → value ctx w' ≡ some v
      → eq_ℤ (shown_code e) exp_code ≡ false
      → Refused text decode opts exp_code resp b s
          (shown_code e)
          (bytes (error_json (shown_code e) (shown_text e)))
  do_request-app_error w' e {v} opts fails no_fields final u stored other =
      let served =
        serve_http-app_error fields_text caller time_now stack router handler r w t mw route a t₀ t'
          w' e {v = v} routed fails no_fields final u stored in
      let code = arrives.status _ _ served.2 in
      let body = arrives.whole _ served.1 in
      subst (λ (x : ℤ × List ℕ). Refused text decode opts exp_code resp b s x.0 x.1)
        (ap (λ c. (c, b.rest)) code ∙ ap (λ l. ((shown_code e), l)) body)
        (do_request-Refused text decode opts exp_code resp b s
          (ap (λ c. eq_ℤ c exp_code) code ∙ other) arrives.intact)

  -- A route of an App of New with Logger, Errors and Panics, in any order, and no other middleware,
  -- registered under a new pattern, on the app or through Mount and Use, over a connection that
  -- works, whose handler, with any middleware around it that Use added or that is its own, ends by
  -- answering with RespondJSON, before which nothing was sent, with its values still stored and a
  -- status that a response with a body can end with; and a client that sends a request to it with
  -- Do, expects this status and gives a destination, where decoding what that JSON reads as, byte
  -- by byte, stores `kept` there with no error: Do returns no error and has stored `kept`.
  pub do_request-respond_json :
      (code : ℤ) (payload : Payload) (w' : World) {v : BaseValues} (opts : List (DoOption D))
      (d : D) (n : Bool) (kept : S)
      → handler ctx asked from ≡ respond_json ctx code (marshalled payload) w'
      → IsUnsent w'
      → IsFinal code
      → value ctx w' ≡ some v
      → eq_ℤ code exp_code ≡ true
      → foldl apply_do no_do_opts opts ≡ record { response_body = some d; use_json_num = n }
      → ((c : Stream)
          → c.rest ≡ bytes payload
          → c.read_err ≡ none
          → (c' : Stream) × (decode n d c s ≡ (none, c', kept)))
      → Accepted text decode opts exp_code resp b s kept
  do_request-respond_json code payload w' {v} opts d n kept answers u final stored same chosen
        reads =
      let served =
        serve_http-respond_json fields_text caller time_now stack router handler r w t mw route a t₀
          t' code payload w' {v = v} routed answers u final stored in
      let (b', read) = reads b (arrives.whole _ served.1) arrives.intact in
      do_request-Accepted text decode opts d n exp_code resp b b' s kept
        (ap (λ c. eq_ℤ c exp_code) (arrives.status _ _ served.2) ∙ same) chosen read
