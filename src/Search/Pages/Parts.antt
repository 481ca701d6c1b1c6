-- ===== src/Search/Pages/Parts.antt =====
-- search/fee_recipients.go: the pages are the parts of the list.
use openrelay.Prelude.{
  ℕ, zero, suc, ◌+◌, ◌-◌, ◌*◌, ◌^◌, ◌≤◌, ◌<◌, ◌≡◌, refl, sym, ap, ap₂, ◌∙◌, List, [], ◌∷◌, ◌++◌,
  some, Bytes, le→leb, length, take, drop, pos, ◌-ℤ◌, arith, min,
}
use openrelay.Search.Pages.{
  times, wrap_int, offset_of, end_of, at_most, slice_list, Answer, page, octets, invalid, refused,
  panicked, page_answer, affiliates_page,
}

times_pos : (a b : ℕ) → times (pos a) (pos b) ≡ pos (a * b)
times_pos a b = ground arith

wrap_pos : (n : ℕ) → n < 2 ^ 63 → wrap_int (pos n) ≡ pos n
wrap_pos n h = ground arith

minus_one : (k : ℕ) → pos (k + 1) -ℤ pos 1 ≡ pos k
unfolding ◌-ℤ◌
minus_one k = ground arith

pub offset_of_lem :
    (k n : ℕ) → k < 2 ^ 63 → k * n < 2 ^ 63 → offset_of (pos (k + 1)) (pos n) ≡ pos (k * n)
unfolding offset_of
offset_of_lem k n h m =
    ap (λ z. wrap_int (times (wrap_int z) (pos n))) (minus_one k)
    ∙ ap (λ z. wrap_int (times z (pos n))) (wrap_pos k h)
    ∙ ap wrap_int (times_pos k n)
    ∙ wrap_pos (k * n) m

end_of_lem : (k n : ℕ) → (k + 1) * n < 2 ^ 63 → end_of (pos (k + 1)) (pos n) ≡ pos ((k + 1) * n)
unfolding end_of
end_of_lem k n m = ap wrap_int (times_pos (k + 1) n) ∙ wrap_pos ((k + 1) * n) m

at_most_lem : (a n : ℕ) → at_most (pos a) n ≡ pos (min a n)
at_most_lem a n = ground arith

slice_list_lem :
    {A : Type 0} (i j : ℕ) (xs : List A)
    → i ≤ j
    → j ≤ length xs
    → slice_list (pos i) (pos j) xs ≡ some (take (j - i) (drop i xs))
unfolding slice_list
slice_list_lem i j xs h k = rw (le→leb i j h, le→leb j (length xs) k) refl

min-suc : (a b : ℕ) → min (suc a) (suc b) ≡ suc (min a b)
min-suc a b = omega arith

zero_min : (b : ℕ) → min 0 b ≡ 0
zero_min b = omega arith

no_offset : (n b : ℕ) → min (0 + n) b - min 0 b ≡ min n b
no_offset n b = omega arith

zero_add : (n : ℕ) → n ≡ 0 + n
zero_add n = omega arith

suc_add : (o n : ℕ) → suc (o + n) ≡ suc o + n
suc_add o n = omega arith

lengths : (o n b : ℕ) → min (suc o + n) (suc b) - min (suc o) (suc b) ≡ min (o + n) b - min o b
lengths o n b = omega arith

module _ {A : Type 0} where
  take_nil : (k : ℕ) → take {A = A} k [] ≡ []
  take_nil zero = refl
  take_nil (suc k) = refl

  drop_nil : (k : ℕ) → drop {A = A} k [] ≡ []
  drop_nil zero = refl
  drop_nil (suc k) = refl

  take-min : (n : ℕ) (xs : List A) → take (min n (length xs)) xs ≡ take n xs
  take-min zero xs = ap (λ k. take k xs) (zero_min (length xs))
  take-min (suc n) [] = take_nil (min (suc n) 0)
  take-min (suc n) (x ∷ xs) =
      ap (λ k. take k (x ∷ xs)) (min-suc n (length xs)) ∙ ap (λ t. x ∷ t) (take-min n xs)

  -- Cutting off both ends of a part at the length of the list changes nothing.
  part_lem :
      (o n : ℕ) (xs : List A)
      → take (min (o + n) (length xs) - min o (length xs)) (drop (min o (length xs)) xs)
        ≡ take n (drop o xs)
  part_lem zero n xs =
      ap₂ (λ k j. take k (drop j xs)) (no_offset n (length xs)) (zero_min (length xs))
      ∙ take-min n xs
  part_lem (suc o) n [] =
      ap (λ t. take (min (suc o + n) 0 - min (suc o) 0) t) (drop_nil (min (suc o) 0))
      ∙ take_nil (min (suc o + n) 0 - min (suc o) 0)
      ∙ sym (take_nil n)
  part_lem (suc o) n (x ∷ xs) =
      ap₂ (λ k j. take k (drop j (x ∷ xs))) (lengths o n (length xs)) (min-suc o (length xs))
      ∙ part_lem o n xs

  -- A part and the one after it.
  take-take : (o n : ℕ) (xs : List A) → take o xs ++ take n (drop o xs) ≡ take (o + n) xs
  take-take zero n xs = ap (λ k. take k xs) (zero_add n)
  take-take (suc o) n [] = take_nil n ∙ sym (take_nil (suc o + n))
  take-take (suc o) n (x ∷ xs) =
      ap (λ t. x ∷ t) (take-take o n xs) ∙ ap (λ k. take k (x ∷ xs)) (suc_add o n)

-- The k-th page, counted from 0, of a list of fee recipients.
pub affiliates_page-part :
    (affiliates : List Bytes) (k n : ℕ)
    → k < 2 ^ 63
    → (k + 1) * n < 2 ^ 63
    → affiliates_page affiliates (pos (k + 1)) (pos n)
      ≡ page (record {
        total = length affiliates;
        page = pos (k + 1);
        per_page = pos n;
        records = take n (drop (k * n) affiliates);
      })
unfolding affiliates_page
affiliates_page-part affiliates k n h m =
    let total = length affiliates in
    ap
      (λ z.
        page_answer total (pos (k + 1)) (pos n)
          (slice_list (at_most z total) (at_most (end_of (pos (k + 1)) (pos n)) total) affiliates))
      (offset_of_lem k n h (ground arith))
    ∙ ap
        (λ z.
          page_answer total (pos (k + 1)) (pos n)
            (slice_list (at_most (pos (k * n)) total) (at_most z total) affiliates))
        (end_of_lem k n m)
    ∙ ap₂ (λ y z. page_answer total (pos (k + 1)) (pos n) (slice_list y z affiliates))
        (at_most_lem (k * n) total) (at_most_lem ((k + 1) * n) total)
    ∙ ap (page_answer total (pos (k + 1)) (pos n)) (
        slice_list_lem (min (k * n) total) (min ((k + 1) * n) total) affiliates (ground arith)
          (ground arith))
    ∙ ap
        (λ (t : List Bytes).
          page (record { total = total; page = pos (k + 1); per_page = pos n; records = t }))
        (ap
            (λ (e : ℕ).
              take (min e total - min (k * n) total) (drop (min (k * n) total) affiliates))
            (omega arith)
          ∙ part_lem (k * n) n affiliates)

abbrev pub records_of : {A : Type 0} → Answer A → List A
records_of (page p) = p.records
records_of (octets b) = []
records_of (invalid errs) = []
records_of (refused status) = []
records_of panicked = []

-- The records of the first `k` pages, one after the other.
abbrev pub joined : List Bytes → ℕ → ℕ → List Bytes
unfolding affiliates_page
joined affiliates n zero = []
joined affiliates n (suc k) =
    joined affiliates n k ++ records_of (affiliates_page affiliates (pos (k + 1)) (pos n))

zero_mul : (n : ℕ) → 0 ≡ 0 * n
zero_mul n = omega arith

within : (k n : ℕ) → suc k * n < 2 ^ 63 → k * n < 2 ^ 63
within k n h = ground arith

next_page : (k n : ℕ) → k * n + n ≡ suc k * n
next_page k n = ground arith

-- The pages are the parts of the list: the first k pages of n fee recipients each, joined, are the
-- first k * n fee recipients, none left out and none listed twice, while the numbers fit in an int.
pub affiliates_page-joined :
    (affiliates : List Bytes) (k n : ℕ)
    → k < 2 ^ 63
    → k * n < 2 ^ 63
    → joined affiliates n k ≡ take (k * n) affiliates
unfolding joined
affiliates_page-joined affiliates zero n h m = ap (λ j. take j affiliates) (zero_mul n)
affiliates_page-joined affiliates (suc k) n h m =
    ap₂ ◌++◌ (affiliates_page-joined affiliates k n (omega arith) (within k n m))
      (ap records_of (affiliates_page-part affiliates k n (omega arith) (ground arith)))
    ∙ take-take (k * n) n affiliates
    ∙ ap (λ j. take j affiliates) (next_page k n)
