-- ===== src/Benchmark/Sorted.antt =====
-- benchmark.cc: what `std::sort` gives, and what stands at an index of it.
use cs389hw.Shared.{
  true, ap, sym, ◌∙◌, ℕ, zero, suc, ◌+◌, ◌≤◌, ◌<◌, ◌≡◌, arith, refl, List, [], ◌∷◌, ok, ◌==◌,
  nat_eq, eq_iff, if◌then◌else◌, leb, ltb, contains, length,
}
use cs389hw.Benchmark.{element, sum}

-- A function, added up over the elements.
abbrev pub total : (ℕ → ℕ) → List ℕ → ℕ
total f [] = 0
total f (d ∷ ds) = f d + total f ds

abbrev pub AtLeast : ℕ → List ℕ → Type 0
AtLeast x [] = Unit
AtLeast x (d ∷ ds) = (x ≤ d) × AtLeast x ds

abbrev pub Ascending : List ℕ → Type 0
Ascending [] = Unit
Ascending (d ∷ ds) = AtLeast d ds × Ascending ds

-- What `std::sort` documents: the same elements, each as often as before, from low to high.
pub record Sorts (sort : List ℕ → List ℕ) : Type 0 where
  pub same_elements : (f : ℕ → ℕ) (ds : List ℕ) → total f (sort ds) ≡ total f ds
  pub ascending : (ds : List ℕ) → Ascending (sort ds)

-- How many elements are below `d`, and how many are not above it.
abbrev pub one_below : ℕ → ℕ → ℕ
one_below d x = if ltb x d then 1 else 0

abbrev pub one_up_to : ℕ → ℕ → ℕ
one_up_to d x = if leb x d then 1 else 0

abbrev pub number_below : ℕ → List ℕ → ℕ
number_below d ds = total (one_below d) ds

abbrev pub number_up_to : ℕ → List ℕ → ℕ
number_up_to d ds = total (one_up_to d) ds

-- `d` is what stands at the index `i` when the elements are sorted.
pub record HasRank (i d : ℕ) (ds : List ℕ) : Type 0 where
  pub inside : contains d ds ≡ true
  pub below : number_below d ds ≤ i
  pub up_to : i < number_up_to d ds

one_equal : ℕ → ℕ → ℕ
one_equal d x = if x == d then 1 else 0

length-total : (ds : List ℕ) → length ds ≡ total (λ d. 1) ds
length-total [] = refl
length-total (d ∷ ds) = omega (arith, length-total ds)

sum-total : (ds : List ℕ) → sum ds ≡ total (λ d. d) ds
sum-total [] = refl
sum-total (d ∷ ds) = omega (arith, sum-total ds)

contains-total : (d : ℕ) (ds : List ℕ) → contains d ds ≡ leb 1 (total (one_equal d) ds)
unfolding one_equal
contains-total d [] = refl
contains-total d (x ∷ ds) = ground (arith, contains-total d ds)

none_below : (d : ℕ) (ds : List ℕ) → AtLeast d ds → number_below d ds ≡ 0
none_below d [] h = refl
none_below d (x ∷ ds) (now, later) = ground (arith, now, none_below d ds later)

AtLeast-element : (x d i : ℕ) (ds : List ℕ) → AtLeast x ds → element ds i ≡ ok d → x ≤ d
unfolding element
AtLeast-element x d i [] h e = cc
AtLeast-element x d zero (y ∷ ds) (now, later) e = let same : y ≡ d = cc in omega (arith, now, same)
AtLeast-element x d (suc i) (y ∷ ds) (now, later) e = AtLeast-element x d i ds later e

below_index : (d i : ℕ) (ds : List ℕ) → Ascending ds → element ds i ≡ ok d → number_below d ds ≤ i
unfolding element
below_index d i [] h e = omega arith
below_index d zero (x ∷ ds) (first, h) e =
    let same : x ≡ d = cc in ground (arith, none_below x ds first, same)
below_index d (suc i) (x ∷ ds) (first, h) e = ground (arith, below_index d i ds h e)

index_up_to : (d i : ℕ) (ds : List ℕ) → Ascending ds → element ds i ≡ ok d → i < number_up_to d ds
unfolding element
index_up_to d i [] h e = cc
index_up_to d zero (x ∷ ds) (first, h) e = let same : x ≡ d = cc in ground (arith, same)
index_up_to d (suc i) (x ∷ ds) (first, h) e =
    let least = AtLeast-element x d i ds first e in ground (arith, index_up_to d i ds h e, least)

contains-element : (d i : ℕ) (ds : List ℕ) → element ds i ≡ ok d → contains d ds ≡ true
unfolding element
contains-element d i [] e = cc
contains-element d zero (x ∷ ds) e = let same : x ≡ d = cc in ground (arith, eq_iff x d, same)
contains-element d (suc i) (x ∷ ds) e = ground (arith, contains-element d i ds e)

pub length-sort :
    {sort : List ℕ → List ℕ} → Sorts sort → (ds : List ℕ) → length (sort ds) ≡ length ds
length-sort {sort} sorts ds =
    length-total (sort ds) ∙ sorts.same_elements (λ d. 1) ds ∙ sym (length-total ds)

pub sum-sort : {sort : List ℕ → List ℕ} → Sorts sort → (ds : List ℕ) → sum (sort ds) ≡ sum ds
sum-sort {sort} sorts ds =
    sum-total (sort ds) ∙ sorts.same_elements (λ d. d) ds ∙ sym (sum-total ds)

-- What stands at an index of the sorted elements has that rank among the elements.
pub element-HasRank :
    {sort : List ℕ → List ℕ}
    → Sorts sort
    → (d i : ℕ) (ds : List ℕ) → element (sort ds) i ≡ ok d
    → HasRank i d ds
element-HasRank {sort} sorts d i ds e =
    let same = sorts.same_elements in
    let up = sorts.ascending ds in
    record {
      inside =
          contains-total d ds
          ∙ ap (leb 1) (sym (same (one_equal d) ds))
          ∙ sym (contains-total d (sort ds))
          ∙ contains-element d i (sort ds) e;
      below = omega (arith, same (one_below d) ds, below_index d i (sort ds) up e);
      up_to = omega (arith, same (one_up_to d) ds, index_up_to d i (sort ds) up e);
    }
