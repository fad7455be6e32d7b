-- ===== src/Client/Exec.antt =====
-- exec and Do of client/client.go, with client/model.go. A response's body is the bytes that are
-- still to be read, how the reading of them ends, and whether it was closed.
pub mod Laws
use httper.Base.{
  ℕ, ◌*◌, String, Bool, true, false, ◌||◌, Option, none, some, List, [], ◌∷◌, ◌++◌, foldl, leb,
  if◌then◌else◌, length, take, drop, ℤ, pos, eq_ℤ,
}
use httper.GoError.{GoError, new, join, wrap, unexpected_status, Try, ok, err}

abbrev pub unexpected_status_code : ℕ
unexpected_status_code = 8

abbrev pub auth_failure : ℕ
auth_failure = 9

abbrev pub err_unexpected_status_code : GoError
err_unexpected_status_code = new unexpected_status_code "unexpected status code"

abbrev pub err_auth_failure : GoError
err_auth_failure = new auth_failure "auth failure"

abbrev pub max_err_body_size : ℕ
max_err_body_size = 4 * 1024

-- An io.ReadCloser. `read_err` is what a read at the end of the bytes returns, io.EOF is `none`.
pub record Stream : Type 0 where
  pub rest : List ℕ
  pub read_err : Option GoError
  pub close_err : Option GoError
  pub closed : Bool

-- An *http.Response without its body
pub record Response : Type 0 where
  pub status_code : ℤ
  pub content_length : ℤ

pub data Line : Type 0 where
  discarding_failed : GoError → Line
  closing_failed : GoError → Line

abbrev line : (GoError → Line) → Option GoError → List Line
line f none = []
line f (some e) = f e ∷ []

-- io.ReadAll(io.LimitReader(body, n)): at `n` bytes the limit ends the reading, with no error.
unfoldable pub read_limited : ℕ → Stream → Option GoError × List ℕ × Stream
read_limited n b =
    if leb n (length b.rest)
    then (none, take n b.rest, record b { rest = drop n b.rest })
    else (b.read_err, b.rest, record b { rest = [] })

-- io.Copy(io.Discard, body)
abbrev discard : Stream → Stream
discard b = record b { rest = [] }

-- The body of the error: what was read, or a fixed text where the reading failed.
abbrev err_body : (List ℕ → String) → Option GoError → List ℕ → String
err_body text none bytes = text bytes
err_body text (some e) bytes = "unable to read body"

abbrev is_auth : ℤ → Bool
is_auth code = eq_ℤ code (pos 401) || eq_ℤ code (pos 403)

abbrev ret_err : ℤ → GoError
ret_err code =
    if is_auth code
    then join err_unexpected_status_code err_auth_failure
    else err_unexpected_status_code

-- The deferred function
abbrev end_body : Bool → Stream → Stream × List Line
end_body discard_body b = (
  record b { rest = if discard_body then [] else b.rest; closed = true },
  (if discard_body then line discarding_failed b.read_err else [])
      ++ line closing_failed b.close_err,
)

-- What exec came to: its error, the body, what `fn` left, and the log.
abbrev pub Executed : Type 0 → Type 0
Executed S = Option GoError × Stream × S × List Line

-- exec behind the call of Do. `text` is the conversion of bytes to a string; `S` is what the
-- injected function writes to.
module _ {S : Type 0} (text : List ℕ → String) where
  abbrev finish : Bool → Option GoError → Stream → S → Executed S
  finish discard_body e b s = let (b', lines) = end_body discard_body b in (e, b', s, lines)

  abbrev after_fn : Option GoError × Stream × S → Executed S
  after_fn (none, b, s) = finish true none b s
  after_fn (some e, b, s) = finish false (some (wrap "exec fn: " e)) b s

  abbrev status_error : ℤ → Option GoError × List ℕ × Stream → S → Executed S
  status_error code (e, bytes, b) s =
      finish true (some (unexpected_status code (err_body text e bytes) (ret_err code))) b s

  unfoldable pub exec_response :
      (exp_code : ℤ)
      → (Response → Stream → S → Option GoError × Stream × S)
      → Response
      → Stream
      → S
      → Executed S
  unfolding read_limited
  exec_response exp_code fn resp b s =
      if eq_ℤ resp.status_code exp_code
      then after_fn (fn resp b s)
      else status_error resp.status_code (read_limited max_err_body_size b) s

  -- exec: `answer` is what the http.Client's Do returns.
  unfoldable pub exec :
      (exp_code : ℤ)
      → (Response → Stream → S → Option GoError × Stream × S)
      → (answer : Try (Response × Stream)) → S
      → Option GoError × Option Stream × S × List Line
  unfolding exec_response
  exec exp_code fn (err e) s = (some (wrap "exec http do: " e), none, s, [])
  exec exp_code fn (ok (resp, b)) s =
      let (e, b', s', lines) = exec_response exp_code fn resp b s in (e, some b', s', lines)

-- The options of Do. WithDestination carries the pointer.
pub data DoOption (D : Type 0) : Type 0 where
  with_destination : D → DoOption D
  with_json_numb : DoOption D

pub record DoOpts (D : Type 0) : Type 0 where
  pub response_body : Option D
  pub use_json_num : Bool

abbrev pub no_do_opts : {D : Type 0} → DoOpts D
no_do_opts = record { response_body = none; use_json_num = false }

unfoldable pub apply_do : {D : Type 0} → DoOpts D → DoOption D → DoOpts D
apply_do o (with_destination d) = record o { response_body = some d }
apply_do o with_json_numb = record o { use_json_num = true }

-- Do. `decode` is json.Decoder.Decode into the destination, with UseNumber or not: its error, what
-- it leaves of the body, and what it stores.
module _ {D S : Type 0} (text : List ℕ → String)
    (decode : Bool → D → Stream → S → Option GoError × Stream × S) where
  abbrev pub decoded : Option GoError × Stream × S → Option GoError × Stream × S
  decoded (none, b, s) = (none, b, s)
  decoded (some e, b, s) = (some (wrap "decoding body: " e), b, s)

  abbrev pub do_func : DoOpts D → Response → Stream → S → Option GoError × Stream × S
  do_func settings resp b s = elim settings.response_body [
    | none ↦ (none, b, s)
    | some d ↦ decoded (decode settings.use_json_num d b s)
  ]

  unfoldable pub do_request :
      List (DoOption D)
      → (exp_code : ℤ) → Try (Response × Stream)
      → S
      → Option GoError × Option Stream × S × List Line
  unfolding exec apply_do
  do_request opts exp_code answer s =
      exec text exp_code (do_func (foldl apply_do no_do_opts opts)) answer s
