-- ===== src/Web/Mux/Slices/Refinement.antt =====
-- Group, Mount and Use in memory against Group, Mount and Use on values.
use httper.Base.{
  get_elem?, get_elem?-map_eq, map-set, Option-cases, inl, inr, ◌⊎◌, ℕ, ◌≡◌, sym, ap, ◌∙◌, none,
  some, List, [], ◌∷◌, ◌++◌, map, set, refl,
}
use mathlib.Core.List.{map-append}
use mathlib.Core.Option
use httper.Web.World.{Middleware}
use httper.Web.Mux.{App, group_app, mount, use_mw}
use httper.Web.Mux.Slices.{
  Slice, read, clone, append_to, allocate, made_with, run_calls, Stacks, Call, group, mounted,
  use_on, call, cloned, appended,
}
use httper.Web.Mux.Slices.Laws.{clone-Yields, append_to-Yields, allocate-Yields}
use httper.Web.Mux.Slices.Independent.{
  stacks, IsSound, app_call, app_calls, cloned-stacks, cloned-IsSound, appended-stacks,
  appended-IsSound,
}

-- The stacks in memory are those of the Apps.
record Refines (st : Stacks) (apps : List App) : Type 0 where
  sound : IsSound st
  same : stacks st ≡ map App.mw apps

module _ (grow : ℕ → ℕ) (st : Stacks) (apps : List App) (r : Refines st apps) where
  at_both :
      (i : ℕ)
      → Option.map (read st.heap) (get_elem? st.apps i) ≡ Option.map App.mw (get_elem? apps i)
  at_both i =
      sym (get_elem?-map_eq (read st.heap) st.apps i)
      ∙ ap (λ l. get_elem? l i) r.same
      ∙ get_elem?-map_eq App.mw apps i

  -- Both there, with the same elements, or none
  found :
      (i : ℕ)
      → ((get_elem? st.apps i ≡ none) × (get_elem? apps i ≡ none))
        ⊎ ((s : Slice) × (a : App) × (get_elem? st.apps i ≡ some s)
            × (get_elem? apps i ≡ some a)
            × (read st.heap s ≡ a.mw))
  found i =
      let e = at_both i in
      elim (Option-cases (get_elem? st.apps i)) [
        | inl out ↦ elim (Option-cases (get_elem? apps i)) [
          | inl out' ↦ inl (out, out')
          | inr (a, here') ↦ absurd (cc (rw (out, here') at e))
        ]
        | inr (s, here) ↦ elim (Option-cases (get_elem? apps i)) [
          | inl out' ↦ absurd (cc (rw (here, out') at e))
          | inr (a, here') ↦
              let e' : some (read st.heap s) ≡ some a.mw = (rw (here, here') at e) in
              inr (s, a, here, here', cc)
        ]
      ]

  made :
      (s : Slice) (a b : App)
      → read st.heap s ≡ a.mw
      → a.mw ≡ b.mw
      → Refines (cloned st (clone grow s st.heap)) (apps ++ b ∷ [])
  made s a b same kept = record {
    sound =
        cloned-IsSound st r.sound (read st.heap s) (clone grow s st.heap)
          (clone-Yields grow s st.heap);
    same =
        cloned-stacks st r.sound (read st.heap s) (clone grow s st.heap)
          (clone-Yields grow s st.heap)
        ∙ ap (λ l. l ++ read st.heap s ∷ []) r.same
        ∙ ap (λ m. map App.mw apps ++ m ∷ []) (same ∙ kept)
        ∙ sym (map-append App.mw apps (b ∷ []));
  }

  used :
      (i : ℕ) (s : Slice) (a : App) (xs : List Middleware)
      → get_elem? st.apps i ≡ some s
      → read st.heap s ≡ a.mw
      → Refines (appended i st (append_to grow s xs st.heap)) (set apps i (use_mw xs a))
  unfolding use_mw
  used i s a xs here same =
      let y = append_to-Yields grow s xs st.heap (r.sound.slots i s here) in
      let l = read st.heap s ++ xs in
      let x = append_to grow s xs st.heap in
      record {
        sound = appended-IsSound st r.sound l x i s here y;
        same =
            appended-stacks st r.sound l x i s here y
            ∙ ap (λ m. set m i l) r.same
            ∙ ap (λ m. set (map App.mw apps) i (m ++ xs)) same
            ∙ sym (
                map-set App.mw App.mw apps i (use_mw xs a) (a.mw ++ xs) refl
                  (λ k b other there. refl));
      }

  step : (c : Call) → Refines (call grow c st) (app_call c apps)
  unfolding call group_app mount
  step (group i) = elim (found i) [
    | inl (out, out') ↦ rw (call, out, app_call, out') r
    | inr (s, a, here, here', same) ↦
        rw (call, here, app_call, here') (made s a (group_app a) same refl)
  ]
  step (mounted i sub_route) = elim (found i) [
    | inl (out, out') ↦ rw (call, out, app_call, out') r
    | inr (s, a, here, here', same) ↦
        rw (call, here, app_call, here') (made s a (mount sub_route a) same refl)
  ]
  step (use_on i xs) = elim (found i) [
    | inl (out, out') ↦ rw (call, out, app_call, out') r
    | inr (s, a, here, here', same) ↦ rw (call, here, app_call, here') (used i s a xs here same)
  ]

module _ (grow : ℕ → ℕ) where
  made_with-Refines : (a : App) → Refines (made_with grow a.mw) (a ∷ [])
  unfolding made_with
  made_with-Refines a =
      let y = allocate-Yields grow (λ n. ⊥) a.mw [] in
      let none_yet : IsSound (record { heap = []; apps = [] }) = record {
        slots = λ k s there. cc there;
        apart = λ i k s t other here there. cc here;
      } in
      record {
        sound =
            cloned-IsSound (record { heap = []; apps = [] }) none_yet a.mw (allocate grow a.mw [])
              y;
        same =
            cloned-stacks (record { heap = []; apps = [] }) none_yet a.mw (allocate grow a.mw []) y;
      }

  run_calls-Refines :
      (calls : List Call) (st : Stacks) (apps : List App)
      → Refines st apps
      → Refines (run_calls grow calls st) (app_calls calls apps)
  unfolding run_calls
  run_calls-Refines [] st apps r = r
  run_calls-Refines (c ∷ calls) st apps r =
      run_calls-Refines calls (call grow c st) (app_call c apps) (step grow st apps r c)

  -- For one App on an array of its own and any calls of Group, Mount and Use on it and on the Apps
  -- that these return: the stack that each App has in memory, whatever the append of another wrote,
  -- is the stack of the value that the same calls make of it.
  pub stacks-run_calls :
      (a : App) (calls : List Call)
      → stacks (run_calls grow calls (made_with grow a.mw)) ≡ map App.mw (app_calls calls (a ∷ []))
  stacks-run_calls a calls =
      (run_calls-Refines calls (made_with grow a.mw) (a ∷ []) (made_with-Refines a)).same
