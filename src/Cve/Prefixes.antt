-- ===== src/Cve/Prefixes.antt =====
-- The sorted prefix rules of the alias table of src/cve.cpp.
use nano_sensor.Base.{
  ℕ, ◌≤◌, ◌≡◌, true, Bool-cases, inl, inr, some, List, [], ◌∷◌, leb, length, arith, All,
}
use nano_sensor.Text.{Bytes, starts_with}
use nano_sensor.Cve.Index.{insert_prefix, sort_prefixes, first_prefix}

-- The entries of a table that cover a name have patterns of length n at most.
abbrev pub IsBounded : Bytes → ℕ → List (Bytes × Bytes) → Type 0
IsBounded norm n ps = All (λ p. starts_with p.0 norm ≡ true → length p.0 ≤ n) ps

-- Each pattern is at least as long as those behind it.
abbrev IsDescending : List (Bytes × Bytes) → Type 0
IsDescending [] = Unit
IsDescending (p ∷ ps) = All (λ q. length q.0 ≤ length p.0) ps × IsDescending ps

All-insert :
    (n : ℕ) (p : Bytes × Bytes) (ps : List (Bytes × Bytes))
    → length p.0 ≤ n
    → All (λ q. length q.0 ≤ n) ps
    → All (λ q. length q.0 ≤ n) (insert_prefix p ps)
unfolding insert_prefix
All-insert n p [] h k = (h, tt)
All-insert n p (q ∷ qs) h k = elim (Bool-cases (leb (length q.0) (length p.0))) [
  | inl e ↦ rw e (h, k)
  | inr e ↦ rw e (k.0, All-insert n p qs h k.1)
]

All-le :
    (m n : ℕ) (ps : List (Bytes × Bytes))
    → m ≤ n
    → All (λ q. length q.0 ≤ m) ps
    → All (λ q. length q.0 ≤ n) ps
All-le m n [] h k = tt
All-le m n (q ∷ qs) h (k, ks) = (omega arith, All-le m n qs h ks)

insert_prefix-IsDescending :
    (p : Bytes × Bytes) (ps : List (Bytes × Bytes))
    → IsDescending ps
    → IsDescending (insert_prefix p ps)
unfolding insert_prefix
insert_prefix-IsDescending p [] h = (tt, tt)
insert_prefix-IsDescending p (q ∷ qs) h = elim (Bool-cases (leb (length q.0) (length p.0))) [
  | inl e ↦
      let below : length q.0 ≤ length p.0 = ground arith in
      rw e ((below, All-le (length q.0) (length p.0) qs below h.0), h)
  | inr e ↦
      let above : length p.0 ≤ length q.0 = ground arith in
      rw e (All-insert (length q.0) p qs above h.0, insert_prefix-IsDescending p qs h.1)
]

sort_prefixes-IsDescending : (ps : List (Bytes × Bytes)) → IsDescending (sort_prefixes ps)
unfolding sort_prefixes
sort_prefixes-IsDescending [] = tt
sort_prefixes-IsDescending (p ∷ ps) =
    insert_prefix-IsDescending p (sort_prefixes ps) (sort_prefixes-IsDescending ps)

All-IsBounded :
    (norm : Bytes) (n : ℕ) (ps : List (Bytes × Bytes))
    → All (λ q. length q.0 ≤ n) ps
    → IsBounded norm n ps
All-IsBounded norm n [] h = tt
All-IsBounded norm n (q ∷ qs) (h, hs) = (λ e. h, All-IsBounded norm n qs hs)

first_longest :
    (norm : Bytes) (ps : List (Bytes × Bytes)) (p : Bytes × Bytes)
    → IsDescending ps
    → first_prefix norm ps ≡ some p
    → IsBounded norm (length p.0) ps
unfolding first_prefix
first_longest norm [] p d h = tt
first_longest norm (q ∷ qs) p d h = elim (Bool-cases (starts_with q.0 norm)) [
  | inl e ↦
      let same : length q.0 ≤ length p.0 = ground arith in
      (λ k. same, All-IsBounded norm (length p.0) qs (All-le (length q.0) (length p.0) qs same d.0))
  | inr e ↦ (λ k. absurd (ground arith), first_longest norm qs p d.1 (rw e at h))
]

IsBounded-insert :
    (norm : Bytes) (n : ℕ) (p : Bytes × Bytes) (ps : List (Bytes × Bytes))
    → IsBounded norm n (insert_prefix p ps)
    → IsBounded norm n (p ∷ ps)
unfolding insert_prefix
IsBounded-insert norm n p [] h = h
IsBounded-insert norm n p (q ∷ qs) h = elim (Bool-cases (leb (length q.0) (length p.0))) [
  | inl e ↦ rw e at h
  | inr e ↦
      let h' : IsBounded norm n (q ∷ insert_prefix p qs) = rw e at h in
      let k = IsBounded-insert norm n p qs h'.1 in (k.0, (h'.0, k.1))
]

IsBounded-sort :
    (norm : Bytes) (n : ℕ) (ps : List (Bytes × Bytes))
    → IsBounded norm n (sort_prefixes ps)
    → IsBounded norm n ps
unfolding sort_prefixes
IsBounded-sort norm n [] h = tt
IsBounded-sort norm n (p ∷ ps) h =
    let k = IsBounded-insert norm n p (sort_prefixes ps) h in (k.0, IsBounded-sort norm n ps k.1)

-- The prefix rule that resolve finds in the sorted table is the longest of all the rules of the
-- file that cover the name, in whatever order the file has them.
pub first_prefix-longest :
    (norm : Bytes) (ps : List (Bytes × Bytes)) (p : Bytes × Bytes)
    → first_prefix norm (sort_prefixes ps) ≡ some p
    → IsBounded norm (length p.0) ps
first_prefix-longest norm ps p h =
    IsBounded-sort norm (length p.0) ps
      (first_longest norm (sort_prefixes ps) p (sort_prefixes-IsDescending ps) h)
