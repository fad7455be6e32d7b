-- ===== src/Web/Server/Laws.antt =====
-- How a server ends.
use httper.Base.{some, ℕ, ◌≡◌, refl, sym, ◌∙◌, ◌↔◌, Option, none, List, [], ◌∷◌, ◌++◌, foldl}
use mathlib.Core.List.{append-nil, append_assoc}
use httper.GoError.{GoError}
use httper.Web.Server.{
  Line, after_signal, after_stop, Options, Opt, with_server, with_host, with_read_timeout,
  with_write_timeout, with_idle_timeout, with_shutdown_timeout, with_logger, with_shutdown_func,
  with_tls, apply, no_options, new_server, from_options, Server, ShutdownFunc, run_funcs, shutdown,
  run, signalled,
}

module _ {S : Type 0} where
  -- The functions that WithShutdownFunc registers, in order
  unfoldable pub registered : List (Opt S) → List (ShutdownFunc S)
  registered [] = []
  registered (with_shutdown_func fn ∷ fs) = fn ∷ registered fs
  registered (f ∷ fs) = registered fs

  foldl-registered :
      (fs : List (Opt S)) (o : Options S)
      → Options.shutdown_funcs (foldl apply o fs) ≡ o.shutdown_funcs ++ registered fs
  unfolding apply registered
  foldl-registered [] o = sym (append-nil o.shutdown_funcs)
  foldl-registered (with_server s ∷ fs) o = foldl-registered fs _
  foldl-registered (with_host s ∷ fs) o = foldl-registered fs _
  foldl-registered (with_read_timeout d ∷ fs) o = foldl-registered fs _
  foldl-registered (with_write_timeout d ∷ fs) o = foldl-registered fs _
  foldl-registered (with_idle_timeout d ∷ fs) o = foldl-registered fs _
  foldl-registered (with_shutdown_timeout d ∷ fs) o = foldl-registered fs _
  foldl-registered (with_logger l ∷ fs) o = foldl-registered fs _
  foldl-registered (with_shutdown_func fn ∷ fs) o =
      foldl-registered fs _ ∙ append_assoc o.shutdown_funcs (fn ∷ []) (registered fs)
  foldl-registered (with_tls c k ∷ fs) o = foldl-registered fs _

  module _ (stop : S → Option GoError × S) (close : S → S) where
    -- The state when each function has run, whatever error it returned.
    pub ran : List (ShutdownFunc S) → S → S
    ran [] s = s
    ran (fn ∷ fns) s = ran fns (fn s).1

    run_funcs-ran :
        (fns : List (ShutdownFunc S)) (s : S) → (run_funcs stop close fns s).0 ≡ ran fns s
    unfolding run_funcs ran
    run_funcs-ran [] s = refl
    run_funcs-ran (fn ∷ fns) s = run_funcs-ran fns (fn s).1

    ended-none_iff :
        (lines : List Line) (r : Option GoError × S)
        → ((after_signal stop close (after_stop stop close lines r)).0 ≡ none) ↔ (r.0 ≡ none)
    ended-none_iff lines (none, s) = (λ _. refl, λ _. refl)
    ended-none_iff lines (some e, s) = (λ h. cc, λ h. cc)

    new_server-registered :
        (handler : ℕ) (opts : List (Opt S))
        → Server.shutdown_funcs (new_server handler opts) ≡ registered opts
    unfolding new_server from_options
    new_server-registered handler opts = foldl-registered opts no_options

    run-shutdown :
        (server : Server S) (s : S)
        → ((run stop close server signalled s).0 ≡ none)
          ↔ ((stop (ran server.shutdown_funcs s)).0 ≡ none)
    unfolding run shutdown
    run-shutdown server s = rw (← run_funcs-ran server.shutdown_funcs s) (
        ended-none_iff (run_funcs stop close server.shutdown_funcs s).1
          (stop (run_funcs stop close server.shutdown_funcs s).0))

    -- Run, after a signal, on a server made by New: every registered shutdown function has run, in
    -- the order of registration, before the http.Server is shut down, and Run reports an error
    -- exactly when that shutdown does, whatever the functions returned.
    pub run-signalled :
        (handler : ℕ) (opts : List (Opt S)) (s : S)
        → ((run stop close (new_server handler opts) signalled s).0 ≡ none)
          ↔ ((stop (ran (registered opts) s)).0 ≡ none)
    run-signalled handler opts s =
        rw (← new_server-registered handler opts) (run-shutdown (new_server handler opts) s)
