-- ===== src/Client/Fetch/Laws.antt =====
-- Download of the client, from the answer of the server to the files.
use httper.Base.{
  Option-cases, Bool-cases, inl, inr, ℕ, String, ◌≡◌, refl, true, false, ◌&&◌, none, some, List, [],
  str_eq, if◌then◌else◌, ℤ, eq_ℤ,
}
use mathlib.Core.Option
use httper.GoError.{GoError, Try, ok, err, wrap}
use httper.Download.Files.{Fs, exists, lookup}
use httper.Download.Handle.{Os, Body, Settings, created, handle}
use httper.Download.Handle.Stream.{body_bytes}
use httper.Download.Handle.Laws.{handle-publishes, handle_restores}
use httper.Download.Async
use httper.Download.Async.{Opt, apply_all, no_options}
use httper.Client.Exec.{Stream, Response, exec}
use httper.Client.Exec.Laws.{exec-none_iff, exec-status, exec-state}
use httper.Client.Fetch.{fetch, dl_func, download, settings_of}

module _ (digest : List ℕ → String) (os : Os) (text : List ℕ → String) (chunks : Stream → Body)
    (left : Stream → Stream) (exp_code : ℤ) (dest_path temp : String) (fs : Fs)
    (made : os.create_temp ≡ created temp) where
  fetch-publishes :
      (opts : Settings) (resp : Response) (b : Stream) (q : String)
      → (opts.skip_existing && exists dest_path fs) ≡ false
      → (fetch digest os text chunks left exp_code dest_path opts (ok (resp, b)) fs).0 ≡ none
      → (eq_ℤ resp.status_code exp_code ≡ true)
        × (lookup q (fetch digest os text chunks left exp_code dest_path opts (ok (resp, b)) fs).2.0
            ≡ (if str_eq dest_path q
                then some (body_bytes (chunks b))
                else if str_eq temp q
                then none
                else lookup q fs))
  unfolding fetch
  fetch-publishes opts resp b q runs h =
      let fn = dl_func digest os text chunks left dest_path opts in
      let both = (exec-none_iff text exp_code fn resp b (fs, [])).0 h in
      (
        both.0,
        rw (exec-state text exp_code fn resp b (fs, []) both.0)
            (handle-publishes digest os (chunks b) resp.content_length dest_path opts fs temp q runs
              made ((Option.map-eq-none_iff (wrap "download: ") _).0 both.1)).0,
      )

  answered_restores :
      (opts : Settings) (resp : Response) (b : Stream) (q : String) (e : GoError)
      → (opts.skip_existing && exists dest_path fs) ≡ false
      → lookup temp fs ≡ none
      → os.remove_err ≡ none
      → (fetch digest os text chunks left exp_code dest_path opts (ok (resp, b)) fs).0 ≡ some e
      → lookup q (fetch digest os text chunks left exp_code dest_path opts (ok (resp, b)) fs).2.0
        ≡ lookup q fs
  unfolding fetch
  answered_restores opts resp b q e runs new removes h =
      let fn = dl_func digest os text chunks left dest_path opts in
      let res = handle digest os (chunks b) resp.content_length dest_path opts fs in
      elim (Bool-cases (eq_ℤ resp.status_code exp_code)) [
        | inr other ↦ rw (exec-status text exp_code fn resp b (fs, []) other).2 refl
        | inl same ↦
            rw (exec-state text exp_code fn resp b (fs, []) same) (elim (Option-cases res.0) [
              | inl none_there ↦ absurd (
                  cc (
                    h,
                    (exec-none_iff text exp_code fn resp b (fs, [])).1
                        (same, (Option.map-eq-none_iff (wrap "download: ") _).1 none_there),
                  ))
              | inr (e', failed) ↦
                  handle_restores digest os (chunks b) resp.content_length dest_path opts fs temp q
                    runs made new removes failed
            ])
      ]

  fetch_restores :
      (opts : Settings) (answer : Try (Response × Stream)) (q : String) (e : GoError)
      → (opts.skip_existing && exists dest_path fs) ≡ false
      → lookup temp fs ≡ none
      → os.remove_err ≡ none
      → (fetch digest os text chunks left exp_code dest_path opts answer fs).0 ≡ some e
      → lookup q (fetch digest os text chunks left exp_code dest_path opts answer fs).2.0
        ≡ lookup q fs
  unfolding fetch exec
  fetch_restores opts (err e') q e runs new removes h = refl
  fetch_restores opts (ok (resp, b)) q e runs new removes h =
      answered_restores opts resp b q e runs new removes h

  module _ (opt_fns : List Opt) (o : Async.Options)
      (resolved : (apply_all opt_fns no_options []).0 ≡ ok o)
      (runs : (o.skip_existing && exists dest_path fs) ≡ false) where
    -- The client's Download, with options that resolve and do not skip the download and a temporary
    -- file that can be created: if it reports no error on a response, then the status was the
    -- expected one, the destination holds exactly the bytes of the body, the temporary file is
    -- gone, and every other path is unchanged.
    pub download-publishes :
        (resp : Response) (b : Stream) (q : String)
        → (download digest os text chunks left exp_code dest_path opt_fns (ok (resp, b)) fs).0
          ≡ none
        → (eq_ℤ resp.status_code exp_code ≡ true)
          × (lookup q
                (download digest os text chunks left exp_code dest_path opt_fns
                  (ok (resp, b))
                  fs).2.0
              ≡ (if str_eq dest_path q
                  then some (body_bytes (chunks b))
                  else if str_eq temp q
                  then none
                  else lookup q fs))
    unfolding download
    download-publishes resp b q h = elim (Bool-cases (str_eq dest_path "")) [
      | inl empty ↦ absurd (cc (rw empty at h))
      | inr named ↦
          rw (named, resolved)
            (fetch-publishes (settings_of o) resp b q runs (rw (named, resolved) at h))
    ]

    -- The client's Download, with options that resolve and do not skip the download and a temporary
    -- file that can be created under a new name and removed: if it reports an error, of whatever
    -- part, then every path holds what it held before.
    pub download_restores :
        (answer : Try (Response × Stream)) (q : String) (e : GoError)
        → lookup temp fs ≡ none
        → os.remove_err ≡ none
        → (download digest os text chunks left exp_code dest_path opt_fns answer fs).0 ≡ some e
        → lookup q (download digest os text chunks left exp_code dest_path opt_fns answer fs).2.0
          ≡ lookup q fs
    unfolding download
    download_restores answer q e new removes h = elim (Bool-cases (str_eq dest_path "")) [
      | inl empty ↦ rw empty refl
      | inr named ↦
          rw (named, resolved)
            (fetch_restores (settings_of o) answer q e runs new removes (rw (named, resolved) at h))
    ]
