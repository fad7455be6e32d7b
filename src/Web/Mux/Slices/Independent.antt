-- ===== src/Web/Mux/Slices/Independent.antt =====
-- What a clone and an append do to the other slices, and the same calls on the values of Web.Mux.
use httper.Base.{
  set, none, Bool-cases, ◌==◌, get_elem?-set_self, get_elem?-set_other, get_elem?-snoc, map-agree,
  map-set, ◌⊎◌, inl, inr, ◌≢◌, subst, ℕ, ◌≡◌, sym, ap, ◌∙◌, some, List, [], ◌∷◌, ◌++◌, map, arith,
  length, get_elem?, take,
}
use httper.Web.Mux.Slices.Laws.{IsSlot, Yields}
use httper.Web.Mux.Slices.{
  Call, group, mounted, use_on, cloned, appended, Heap, Slice, read, Stacks,
}
use mathlib.Core.List.{map-append}
use httper.Web.World.{Middleware}
use httper.Web.Mux.{App, group_app, mount, use_mw}

-- What the stacks are in memory
abbrev pub stacks : Stacks → List (List Middleware)
stacks st = map (read st.heap) st.apps

-- Every slice lies in its array, and no two in one.
pub record IsSound (st : Stacks) : Type 0 where
  pub slots : (k : ℕ) (s : Slice) → get_elem? st.apps k ≡ some s → IsSlot st.heap s
  pub apart :
      (i k : ℕ) (s t : Slice)
      → i ≢ k
      → get_elem? st.apps i ≡ some s
      → get_elem? st.apps k ≡ some t
      → s.array ≢ t.array

module _ {own : ℕ → Type 0} {l : List Middleware} {h : Heap} {x : Slice × Heap}
    (y : Yields own l h x) (t : Slice) (slot : IsSlot h t) where
  -- A slice of another array
  read-kept : t.array ≢ x.0.array → read x.1 t ≡ read h t
  unfolding read
  read-kept other = ap (take t.len) (y.others t.array slot.bounded other)

  slot-kept : t.array ≢ x.0.array → IsSlot x.1 t
  slot-kept other = record {
    bounded = omega (arith, slot.bounded, y.grows);
    fits = omega (arith, slot.fits, ap length (y.others t.array slot.bounded other));
  }

module _ (st : Stacks) (sound : IsSound st) (l : List Middleware) (x : Slice × Heap) where
  module _ (y : Yields (λ a. ⊥) l st.heap x) where
    is_new : (k : ℕ) (t : Slice) → get_elem? st.apps k ≡ some t → t.array ≢ x.0.array
    is_new k t there e = elim y.place [
      | inl never ↦ never
      | inr behind ↦ omega (arith, e, behind, (sound.slots k t there).bounded)
    ]

    pub cloned-stacks : stacks (cloned st x) ≡ stacks st ++ l ∷ []
    cloned-stacks =
        map-append (read x.1) st.apps (x.0 ∷ [])
        ∙ ap (λ m. m ++ read x.1 x.0 ∷ [])
            (map-agree (read x.1) (read st.heap) st.apps
              (λ k t there. read-kept y t (sound.slots k t there) (is_new k t there)))
        ∙ ap (λ m. stacks st ++ m ∷ []) y.holds

    pub cloned-IsSound : IsSound (cloned st x)
    cloned-IsSound = record {
      slots = λ k s there. elim (get_elem?-snoc st.apps x.0 k there) [
        | inl old ↦ slot-kept y s (sound.slots k s old) (is_new k s old)
        | inr (at, same) ↦ subst (IsSlot x.1) same y.slot
      ];
      apart = λ i k s t other here there. elim (get_elem?-snoc st.apps x.0 i here) [
        | inl old ↦ elim (get_elem?-snoc st.apps x.0 k there) [
          | inl old' ↦ sound.apart i k s t other old old'
          | inr (at, same) ↦ λ e. is_new i s old (e ∙ ap Slice.array (sym same))
        ]
        | inr (at, same) ↦ elim (get_elem?-snoc st.apps x.0 k there) [
          | inl old' ↦ λ e. is_new k t old' (sym e ∙ ap Slice.array (sym same))
          | inr (at', same') ↦ absurd (other (at ∙ sym at'))
        ]
      ];
    }

  module _ (i : ℕ) (s : Slice) (here : get_elem? st.apps i ≡ some s)
      (y : Yields (λ a. a ≡ s.array) l st.heap x) where
    is_other : (k : ℕ) (t : Slice) → k ≢ i → get_elem? st.apps k ≡ some t → t.array ≢ x.0.array
    is_other k t other there e = elim y.place [
      | inl mine ↦ sound.apart k i t s other there here (e ∙ mine)
      | inr behind ↦ omega (arith, e, behind, (sound.slots k t there).bounded)
    ]

    pub appended-stacks : stacks (appended i st x) ≡ set (stacks st) i l
    appended-stacks =
        map-set (read x.1) (read st.heap) st.apps i x.0 l y.holds
          (λ k t other there. read-kept y t (sound.slots k t there) (is_other k t other there))

    -- What stands at an index behind the change
    at_index :
        (k : ℕ) (t : Slice)
        → get_elem? (set st.apps i x.0) k ≡ some t
        → ((k ≡ i) × (x.0 ≡ t)) ⊎ ((k ≢ i) × (get_elem? st.apps k ≡ some t))
    at_index k t there = elim (Bool-cases (k == i)) [
      | inl same ↦
          let e : k ≡ i = ground arith in
          let mine = get_elem?-set_self st.apps i x.0 here in
          let found : some x.0 ≡ some t = sym mine ∙ (rw e at there) in inl (e, cc)
      | inr differs ↦
          let other : k ≢ i = ground arith in
          inr (other, sym (get_elem?-set_other st.apps i k x.0 (λ e. other (sym e))) ∙ there)
    ]

    pub appended-IsSound : IsSound (appended i st x)
    appended-IsSound = record {
      slots = λ k t there. elim (at_index k t there) [
        | inl (e, same) ↦ subst (IsSlot x.1) same y.slot
        | inr (other, old) ↦ slot-kept y t (sound.slots k t old) (is_other k t other old)
      ];
      apart = λ j k t u differ at_j at_k. elim (at_index j t at_j) [
        | inl (e, same) ↦ elim (at_index k u at_k) [
          | inl (e', same') ↦ absurd (differ (e ∙ sym e'))
          | inr (other, old) ↦ λ q. is_other k u other old (sym q ∙ ap Slice.array (sym same))
        ]
        | inr (other, old) ↦ elim (at_index k u at_k) [
          | inl (e', same') ↦ λ q. is_other j t other old (q ∙ ap Slice.array (sym same'))
          | inr (other', old') ↦ sound.apart j k t u differ old old'
        ]
      ];
    }

-- The same calls on the values of Web.Mux
abbrev pub app_call : Call → List App → List App
app_call (group i) apps = elim (get_elem? apps i) [
  | none ↦ apps
  | some a ↦ apps ++ group_app a ∷ []
]
app_call (mounted i sub_route) apps = elim (get_elem? apps i) [
  | none ↦ apps
  | some a ↦ apps ++ mount sub_route a ∷ []
]
app_call (use_on i xs) apps = elim (get_elem? apps i) [
  | none ↦ apps
  | some a ↦ set apps i (use_mw xs a)
]

abbrev pub app_calls : List Call → List App → List App
app_calls [] apps = apps
app_calls (c ∷ calls) apps = app_calls calls (app_call c apps)
