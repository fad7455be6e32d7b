-- ===== src/Web/Mux/Slices.antt =====
-- The middleware stacks of the Apps of web/mux/mux.go as Go holds them: slices on a heap of arrays.
-- An append writes into the array where it has room, so two slices of one array would share it;
-- Group and Mount clone the stack, and Use appends to it.

pub mod Laws
pub mod Independent
pub mod Refinement
mod Tests
use httper.Web.World.{Middleware, nil}
use httper.Base.{
  String, ℕ, zero, suc, ◌+◌, none, some, List, [], ◌∷◌, ◌++◌, leb, if◌then◌else◌, length, get_elem?,
  set, take, drop,
}

-- An array; its length is the capacity of its slices, which begin where it begins.
abbrev pub Heap : Type 0
Heap = List (List Middleware)

pub record Slice : Type 0 where
  pub array : ℕ
  pub len : ℕ

unfoldable pub array_at : Heap → ℕ → List Middleware
array_at h a = elim (get_elem? h a) [ none ↦ [] | some l ↦ l ]

-- The elements of a slice
pub read : Heap → Slice → List Middleware
unfolding array_at
read h s = take s.len (array_at h s.array)

-- The elements behind the `n` first ones are overwritten.
pub overwrite : List Middleware → ℕ → List Middleware → List Middleware
overwrite l n xs = take n l ++ (xs ++ drop (n + length xs) l)

unfoldable pub spare : ℕ → List Middleware
spare zero = []
spare (suc n) = nil ∷ spare n

-- The stacks of the Apps that share a mux, in the order in which they were made
pub record Stacks : Type 0 where
  pub heap : Heap
  pub apps : List Slice

-- The App at this index: Group, Mount and Use.
pub data Call : Type 0 where
  group : ℕ → Call
  mounted : ℕ → String → Call
  use_on : ℕ → List Middleware → Call

abbrev pub cloned : Stacks → Slice × Heap → Stacks
cloned st (s, h) = record { heap = h; apps = st.apps ++ s ∷ [] }

abbrev pub appended : ℕ → Stacks → Slice × Heap → Stacks
appended i st (s, h) = record { heap = h; apps = set st.apps i s }

-- `grow` is the room that the runtime adds to an array that it makes.
module _ (grow : ℕ → ℕ) where
  -- A new array with these elements
  abbrev pub allocate : List Middleware → Heap → Slice × Heap
  allocate l h =
      (record { array = length h; len = length l }, h ++ (l ++ spare (grow (length l))) ∷ [])

  -- append(s, xs...)
  pub append_to : Slice → List Middleware → Heap → Slice × Heap
  unfolding read overwrite
  append_to s xs h =
      if leb (s.len + length xs) (length (array_at h s.array))
      then (
        record s { len = s.len + length xs },
        set h s.array (overwrite (array_at h s.array) s.len xs),
      )
      else allocate (read h s ++ xs) h

  -- slices.Clone(s)
  pub clone : Slice → Heap → Slice × Heap
  unfolding read spare
  clone s h = allocate (read h s) h

  pub call : Call → Stacks → Stacks
  unfolding append_to clone
  call (group i) st = elim (get_elem? st.apps i) [
    | none ↦ st
    | some s ↦ cloned st (clone s st.heap)
  ]
  call (mounted i sub_route) st = elim (get_elem? st.apps i) [
    | none ↦ st
    | some s ↦ cloned st (clone s st.heap)
  ]
  call (use_on i xs) st = elim (get_elem? st.apps i) [
    | none ↦ st
    | some s ↦ appended i st (append_to s xs st.heap)
  ]

  -- An App that is new, with its stack in an array of its own
  pub made_with : List Middleware → Stacks
  unfolding spare
  made_with mw = cloned (record { heap = []; apps = [] }) (allocate mw [])

  pub run_calls : List Call → Stacks → Stacks
  unfolding call
  run_calls [] st = st
  run_calls (c ∷ calls) st = run_calls calls (call c st)
