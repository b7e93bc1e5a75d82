-- ===== src/JobApi/Lists.antt =====
-- A copy of a list of Jobs shares no memory with the list.
use test_concurrent_reconcil.Base.{
  ℕ, zero, suc, ◌+◌, ◌-◌, ◌≤◌, ◌<◌, ◌≡◌, ◌≢◌, refl, ap, true, String, arith, List, [], ◌∷◌, Option,
  none, some,
}
use test_concurrent_reconcil.JobApi.{Part, TypeMeta, JobSpec, JobList, Slice, Heap}
use test_concurrent_reconcil.JobApi.DeepCopy.{copy_items, copy_slice, make_jobs}
use test_concurrent_reconcil.JobApi.Parts.{Extends, Extends-refl, IsLive, IsFresh, Documented}
use test_concurrent_reconcil.JobApi.JobPart.{job_part}
use test_concurrent_reconcil.JobApi.Copies.{job_view, JobIsLive, copy_items-CopiedItems}

abbrev pub elements : {A : Type 0} → ℕ → ℕ → (ℕ → A) → List A
elements zero p f = []
elements (suc n) p f = f p ∷ elements n (suc p) f

pub elements-agree :
    {A : Type 0} (n p q : ℕ) (f g : ℕ → A)
    → ((s d : ℕ) → p ≤ s → s < p + n → d + p ≡ q + s → g d ≡ f s)
    → elements n q g ≡ elements n p f
elements-agree zero p q f g h = refl
elements-agree (suc n) p q f g h = cc (
  h p q (omega arith) (omega arith) (omega arith),
  elements-agree n (suc p) (suc q) f g
      (λ s d low high at. h s d (omega (arith, low)) (omega (arith, high)) (omega (arith, at))),
)

-- The addresses of a slice's elements.
abbrev pub InSlice : Option Slice → ℕ → Type 0
InSlice none k = ⊥
InSlice (some s) k = (s.pointer ≤ k) × (k < s.pointer + s.length)

abbrev pub IsBounded : Option Slice → ℕ → Type 0
IsBounded none size = Unit {0}
IsBounded (some s) size = s.pointer + s.length ≤ size

module _ {C Om Lm Ds OmV DsV : Type 0} (om : Part C Om OmV) (ds : Part C Ds DsV) where
  -- A nil slice is not an empty one.
  abbrev pub slice_view :
      Heap C Om Lm Ds → Option Slice → Option (List (TypeMeta × OmV × JobSpec × DsV × String))
  slice_view h none = none
  slice_view h (some s) = some (elements s.length s.pointer (job_view om ds h))

  pub record CopiedSlice (items out : Option Slice) (h h' : Heap C Om Lm Ds) : Type 0 where
    pub extends : Extends h.cells h'.cells
    pub others : (k : ℕ) → k < h.jobs.size → h'.jobs.at k ≡ h.jobs.at k
    pub lists : h'.lists ≡ h.lists
    pub view : slice_view h' out ≡ slice_view h items
    pub fresh : (k : ℕ) → InSlice out k → h.jobs.size ≤ k
    pub fresh_cells :
        (k : ℕ) → InSlice out k → IsFresh (job_part om ds) h.cells.size (h'.jobs.at k) h'.cells

  module _ (dom : Documented om) (dds : Documented ds) where
    pub copy_slice-CopiedSlice :
        (items : Option Slice) (h : Heap C Om Lm Ds)
        → IsBounded items h.jobs.size
        → ((k : ℕ) → InSlice items k → JobIsLive om ds h k)
        → let (out, h') = copy_slice om ds items h in CopiedSlice items out h h'
    unfolding copy_slice
    copy_slice-CopiedSlice none h bounded live = record {
      extends = Extends-refl h.cells;
      others = λ k below. refl;
      lists = refl;
      view = refl;
      fresh = λ k absent. absurd absent;
      fresh_cells = λ k absent. absurd absent;
    }
    copy_slice-CopiedSlice (some s) h bounded live =
        let dst = h.jobs.size in
        let hm = (make_jobs s.length h).1 in
        let h' = copy_items om ds s.length s.pointer dst hm in
        let r =
          copy_items-CopiedItems om ds dom dds s.length s.pointer dst hm
            (λ k low high. live k (low, high)) bounded in
        record {
          extends = r.extends;
          others = r.others;
          lists = r.lists;
          view = ap some (
              elements-agree s.length s.pointer dst (job_view om ds h) (job_view om ds h')
                (λ i d low high at. (r.copied i d low high at).view));
          fresh = λ k h. h.0;
          fresh_cells = λ k (low, high).
              (r.copied (s.pointer + (k - dst)) k (omega arith) (omega (arith, low, high))
                (omega (arith, low))).fresh;
        }

module _ {C Om Lm Ds OmV LmV DsV : Type 0} (om : Part C Om OmV) (ds : Part C Ds DsV)
    (lm : Part C Lm LmV) where
  -- A list's value, with all that it points at.
  abbrev pub list_value :
      Heap C Om Lm Ds
      → JobList Lm
      → TypeMeta × LmV × Option (List (TypeMeta × OmV × JobSpec × DsV × String))
  list_value h l = (l.type_meta, lm.view l.list_meta h.cells.at, slice_view om ds h l.items)

  abbrev pub list_view :
      Heap C Om Lm Ds → ℕ → TypeMeta × LmV × Option (List (TypeMeta × OmV × JobSpec × DsV × String))
  list_view h p = list_value h (h.lists.at p)

  -- The list, its elements, and the cells that they point at have been allocated.
  pub record ListIsLive (h : Heap C Om Lm Ds) (p : ℕ) : Type 0 where
    pub allocated : p < h.lists.size
    pub meta : IsLive lm (h.lists.at p).list_meta h.cells
    pub bounded : IsBounded (h.lists.at p).items h.jobs.size
    pub items : (k : ℕ) → InSlice (h.lists.at p).items k → JobIsLive om ds h k

  -- The cells that a list points at, itself or from an element.
  pub data Holds (h : Heap C Om Lm Ds) (l : JobList Lm) (a : ℕ) : Type 0 where
    by_meta : lm.reaches l.list_meta h.cells.at a ≡ true → Holds h l a
    by_item :
        (k : ℕ)
        → InSlice l.items k
        → (job_part om ds).reaches (h.jobs.at k) h.cells.at a ≡ true
        → Holds h l a

  pub Holds-fresh :
      (base : ℕ) (h : Heap C Om Lm Ds) (l : JobList Lm)
      → IsFresh lm base l.list_meta h.cells
      → ((k : ℕ) → InSlice l.items k → IsFresh (job_part om ds) base (h.jobs.at k) h.cells)
      → (a : ℕ) → Holds h l a
      → base ≤ a
  Holds-fresh base h l meta items a (by_meta r) = meta a r
  Holds-fresh base h l meta items a (by_item k inside r) = items k inside a r

  -- `w` differs from `h` only in what can be reached from the list at `q`.
  pub record OnlyThrough (q : ℕ) (h w : Heap C Om Lm Ds) : Type 0 where
    pub lists : (r : ℕ) → r ≢ q → w.lists.at r ≡ h.lists.at r
    pub jobs : (k : ℕ) → ¬ InSlice (h.lists.at q).items k → w.jobs.at k ≡ h.jobs.at k
    pub cells : (a : ℕ) → ¬ Holds h (h.lists.at q) a → w.cells.at a ≡ h.cells.at a
