-- ===== src/Web/Respond/Laws.antt =====
-- What the respond functions leave on the wire.
use httper.GoError.{GoError}
use httper.Web.Context.{value, get_values}
use httper.Web.World.{
  BaseValues, Ctx, Payload, World, done, set_header, is_informational, is_status_code,
}
use httper.Web.Respond.{Encoded, marshalled, marshal_error, respond_json}
use httper.Base.{
  get_elem?-set_self, ℕ, ◌≡◌, inl, inr, true, false, none, some, [], ◌∷◌, arith, Option-cases, ℤ,
  pos, eq_ℤ,
}

-- Nothing was sent or written yet, and the connection works.
pub record IsUnsent (w : World) : Type 0 where
  pub unsent : w.response.sent ≡ none
  pub unwritten : w.response.body ≡ []
  pub works : w.response.broken ≡ none

-- A status that a response with a body can end with.
pub record IsFinal (code : ℤ) : Type 0 where
  pub valid : is_status_code code ≡ true
  pub final : is_informational code ≡ false
  pub no_content : eq_ℤ code (pos 204) ≡ false
  pub modified : eq_ℤ code (pos 304) ≡ false

-- On a response of which nothing is sent, over a connection that works, and with a status that a
-- response with a body can end with, RespondJSON sends the status with a JSON content type and the
-- encoded data, once, and reports no error.
pub respond_json_sends :
    (ctx : Ctx) (code : ℤ) (payload : Payload) (w : World)
    → IsUnsent w
    → IsFinal code
    → ((respond_json ctx code (marshalled payload) w).0 ≡ done none)
      × ((respond_json ctx code (marshalled payload) w).1.response.body ≡ payload ∷ [])
      × ((respond_json ctx code (marshalled payload) w).1.response.sent
          ≡ some (code, set_header "Content-Type" "application/json" w.response.header))
unfolding respond_json
respond_json_sends ctx code payload w u f = elim (Option-cases ctx.base) [
  | inl e ↦ (ground arith, ground arith, ground arith)
  | inr (p, e) ↦ (ground arith, ground arith, ground arith)
]

-- With 204 the status is sent alone.
pub respond_json-no_content :
    (ctx : Ctx) (encoded : Encoded) (w : World)
    → IsUnsent w
    → ((respond_json ctx (pos 204) encoded w).0 ≡ done none)
      × ((respond_json ctx (pos 204) encoded w).1.response.body ≡ [])
      × ((respond_json ctx (pos 204) encoded w).1.response.sent ≡ some (pos 204, w.response.header))
unfolding respond_json
respond_json-no_content ctx encoded w u = elim (Option-cases ctx.base) [
  | inl e ↦ (ground arith, ground arith, ground arith)
  | inr (p, e) ↦ (ground arith, ground arith, ground arith)
]

-- Where the data cannot be marshalled nothing is sent: the caller gets the error.
pub respond_json-marshal_error :
    (ctx : Ctx) (code : ℤ) (e : GoError) (w : World)
    → eq_ℤ code (pos 204) ≡ false
    → ((respond_json ctx code (marshal_error e) w).0 ≡ done (some e))
      × ((respond_json ctx code (marshal_error e) w).1.response ≡ w.response)
unfolding respond_json
respond_json-marshal_error ctx code e w h = (ground arith, ground arith)

-- RespondJSON stores its status behind the context, whatever becomes of the body.
pub respond_json-get_values :
    (time_now : ℕ) (ctx : Ctx) (code : ℤ) (payload : Payload) (w : World) {v : BaseValues}
    → IsUnsent w
    → IsFinal code
    → value ctx w ≡ some v
    → (get_values time_now ctx (respond_json ctx code (marshalled payload) w).1).status_code ≡ code
unfolding respond_json get_values
respond_json-get_values time_now ctx code payload w {v} u f h = elim (Option-cases ctx.base) [
  | inl e ↦ ground arith
  | inr (p, e) ↦
      ground (arith, get_elem?-set_self w.values p (record v { status_code = code }) {x = v})
]

pub respond_json-logs :
    (ctx : Ctx) (code : ℤ) (payload : Payload) (w : World)
    → IsUnsent w
    → IsFinal code
    → (respond_json ctx code (marshalled payload) w).1.logs ≡ w.logs
unfolding respond_json
respond_json-logs ctx code payload w u f = elim (Option-cases ctx.base) [
  | inl e ↦ ground arith
  | inr (p, e) ↦ ground arith
]
