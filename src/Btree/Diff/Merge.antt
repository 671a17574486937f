-- ===== src/Btree/Diff/Merge.antt =====
-- The changes that a merge of two sorted lists of entries names are those of their keys.
use Prim.Native.Nat.Ordering.{eq}
use arkeion.Common.{
  ℕ, zero, suc, ◌+◌, ◌≤◌, ◌≡◌, refl, sym, ◌∙◌, ap, arith, Option, none, some, List, [], ◌∷◌, length,
  All, inl, inr, ◌⊎◌,
}
use mathlib.Core.Path.{subst, ap₂}
use arkeion.Common.Lex.{lex}
use arkeion.Common.LexOrder.{Below, Below-trans, lex-cases, lex_refl, lex-Above}
use arkeion.Branch.{KeyDiff, KeyChange, key_added, key_removed, key_modified}
use arkeion.Btree.Read.Get.{find}
use arkeion.Btree.Scan.{Entry}
use arkeion.Btree.Diff.{change, all_added, all_removed, both_changes, merge_loop}

-- What happened to a key, by its values before and after.
abbrev pub change_of : Option (List ℕ) → Option (List ℕ) → Option KeyChange
change_of none none = none
change_of none (some w) = some (key_added w)
change_of (some v) none = some (key_removed v)
change_of (some v) (some w) = elim (lex v w) [ eq ↦ none | _ ↦ some (key_modified v w) ]

-- The change that a list of them has for a key.
abbrev pub change_at : List KeyDiff → List ℕ → Option KeyChange
change_at [] key = none
change_at (d ∷ ds) key = elim (lex d.key key) [ eq ↦ some d.change | _ ↦ change_at ds key ]

abbrev pub AllAbove : List ℕ → List Entry → Type 0
AllAbove key = All (λ (e : Entry). Below key e.0)

-- Each key is below those behind it.
abbrev pub Sorted : List Entry → Type 0
Sorted [] = Unit
Sorted (e ∷ es) = AllAbove e.0 es × Sorted es

find-AllAbove : (key : List ℕ) (es : List Entry) → AllAbove key es → find es key ≡ none
find-AllAbove key [] h = refl
find-AllAbove key ((k, v) ∷ es) (b, h) = rw (find, lex-Above k key b) (find-AllAbove key es h)

AllAbove-trans :
    (low high : List ℕ) (es : List Entry) → Below low high → AllAbove high es → AllAbove low es
AllAbove-trans low high [] b h = tt
AllAbove-trans low high ((k, v) ∷ es) b (c, h) =
    (Below-trans low high k b c, AllAbove-trans low high es b h)

change_at-all_added :
    (b : List Entry) (key : List ℕ) → change_at (all_added b) key ≡ change_of none (find b key)
change_at-all_added [] key = refl
change_at-all_added ((k, w) ∷ b) key = elim (lex-cases k key) [
  | inl (r, l) ↦ rw (change_at, find, l) (change_at-all_added b key)
  | inr (inl (same, l)) ↦ rw (change_at, find, l) refl
  | inr (inr (r, l)) ↦ rw (change_at, find, l) (change_at-all_added b key)
]

change_at-all_removed :
    (a : List Entry) (key : List ℕ) → change_at (all_removed a) key ≡ change_of (find a key) none
change_at-all_removed [] key = refl
change_at-all_removed ((k, v) ∷ a) key = elim (lex-cases k key) [
  | inl (r, l) ↦ rw (change_at, find, l) (change_at-all_removed a key)
  | inr (inl (same, l)) ↦ rw (change_at, find, l) refl
  | inr (inr (r, l)) ↦ rw (change_at, find, l) (change_at-all_removed a key)
]

-- A key that is not that of a first entry, or of a first change.
record Other (k key : List ℕ) : Type 0 where
  found_later : (v : List ℕ) (es : List Entry) → find ((k, v) ∷ es) key ≡ find es key
  changed_later :
      (c : KeyChange) (ds : List KeyDiff) → change_at (change k c ∷ ds) key ≡ change_at ds key

compare_keys : (k key : List ℕ) → (k ≡ key) ⊎ Other k key
compare_keys k key = elim (lex-cases k key) [
  | inl (r, l) ↦ inr (record {
    found_later = λ v es. rw (find, l) refl;
    changed_later = λ c ds. rw (change_at, l) refl;
  })
  | inr (inl (same, l)) ↦ inl same
  | inr (inr (r, l)) ↦ inr (record {
    found_later = λ v es. rw (find, l) refl;
    changed_later = λ c ds. rw (change_at, l) refl;
  })
]

find-first : (k v : List ℕ) (es : List Entry) → find ((k, v) ∷ es) k ≡ some v
find-first k v es = rw (find, lex_refl k) refl

change_at-first :
    (k : List ℕ) (c : KeyChange) (ds : List KeyDiff) → change_at (change k c ∷ ds) k ≡ some c
change_at-first k c ds = rw (change_at, lex_refl k) refl

-- What a list of changes is to say of the keys of two lists of entries.
abbrev pub Tells : List KeyDiff → List Entry → List Entry → Type 0
Tells ds a b = (key : List ℕ) → change_at ds key ≡ change_of (find a key) (find b key)

removed-Tells :
    (k v : List ℕ) (ds : List KeyDiff) (a b : List Entry)
    → AllAbove k b
    → Tells ds a b
    → Tells (change k (key_removed v) ∷ ds) ((k, v) ∷ a) b
removed-Tells k v ds a b above h key = elim (compare_keys k key) [
  | inr o ↦
      o.changed_later (key_removed v) ds
      ∙ h key
      ∙ ap (λ (f : Option (List ℕ)). change_of f (find b key)) (sym (o.found_later v a))
  | inl same ↦
      subst
        (λ key.
          change_at (change k (key_removed v) ∷ ds) key
          ≡ change_of (find ((k, v) ∷ a) key) (find b key))
        same
        (change_at-first k (key_removed v) ds
          ∙ sym (ap₂ change_of (find-first k v a) (find-AllAbove k b above)))
]

added-Tells :
    (l w : List ℕ) (ds : List KeyDiff) (a b : List Entry)
    → AllAbove l a
    → Tells ds a b
    → Tells (change l (key_added w) ∷ ds) a ((l, w) ∷ b)
added-Tells l w ds a b above h key = elim (compare_keys l key) [
  | inr o ↦
      o.changed_later (key_added w) ds
      ∙ h key
      ∙ ap (change_of (find a key)) (sym (o.found_later w b))
  | inl same ↦
      subst
        (λ key.
          change_at (change l (key_added w) ∷ ds) key
          ≡ change_of (find a key) (find ((l, w) ∷ b) key))
        same
        (change_at-first l (key_added w) ds
          ∙ sym (ap₂ change_of (find-AllAbove l a above) (find-first l w b)))
]

-- The changes of the key that comes first in both.
both-Tells :
    (k v w : List ℕ) (now ds : List KeyDiff) (a b : List Entry)
    → ((key : List ℕ) → Other k key → change_at now key ≡ change_at ds key)
    → change_at now k ≡ change_of (some v) (some w)
    → Tells ds a b
    → Tells now ((k, v) ∷ a) ((k, w) ∷ b)
both-Tells k v w now ds a b later first h key = elim (compare_keys k key) [
  | inr o ↦ later key o ∙ h key ∙ sym (ap₂ change_of (o.found_later v a) (o.found_later w b))
  | inl same ↦
      subst (λ key. change_at now key ≡ change_of (find ((k, v) ∷ a) key) (find ((k, w) ∷ b) key))
        same (first ∙ sym (ap₂ change_of (find-first k v a) (find-first k w b)))
]

both_changes-Tells :
    (k v w : List ℕ) (ds : List KeyDiff) (a b : List Entry)
    → AllAbove k a
    → AllAbove k b
    → Tells ds a b
    → Tells (both_changes k v w ds) ((k, v) ∷ a) ((k, w) ∷ b)
both_changes-Tells k v w ds a b above_a above_b h = elim (lex-cases v w) [
  | inl (r, l) ↦
      both-Tells k v w _ ds a b
        (λ key o. rw (both_changes, l) (o.changed_later (key_modified v w) ds))
        (rw (both_changes, change_of, l) (change_at-first k (key_modified v w) ds)) h
  | inr (inl (same, l)) ↦
      both-Tells k v w _ ds a b (λ key o. rw (both_changes, l) refl)
        (rw (both_changes, change_of, l)
          (h k ∙ ap₂ change_of (find-AllAbove k a above_a) (find-AllAbove k b above_b)))
        h
  | inr (inr (r, l)) ↦
      both-Tells k v w _ ds a b
        (λ key o. rw (both_changes, l) (o.changed_later (key_modified v w) ds))
        (rw (both_changes, change_of, l) (change_at-first k (key_modified v w) ds)) h
]

-- The merge says of every key what happened to it.
pub merge_loop-Tells :
    (rounds : ℕ) (a b : List Entry)
    → Sorted a
    → Sorted b
    → length a + length b ≤ rounds
    → Tells (merge_loop rounds a b) a b
unfolding merge_loop
merge_loop-Tells rounds [] b sa sb enough = change_at-all_added b
merge_loop-Tells rounds (x ∷ a) [] sa sb enough = change_at-all_removed (x ∷ a)
merge_loop-Tells zero (x ∷ a) (y ∷ b) sa sb enough = absurd (omega (arith, enough))
merge_loop-Tells (suc rounds) ((k, v) ∷ a) ((l, w) ∷ b) (above_k, sa) (above_l, sb) enough =
    elim (lex-cases k l) [
      | inl (less, o) ↦
          rw (merge_loop, o)
            (removed-Tells k v _ a ((l, w) ∷ b) (less, AllAbove-trans k l b less above_l)
              (merge_loop-Tells rounds a ((l, w) ∷ b) sa (above_l, sb) (omega (arith, enough))))
      | inr (inl (same, o)) ↦
          rw (merge_loop, o)
            (subst
              (λ (l : List ℕ).
                Tells (both_changes k v w (merge_loop rounds a b)) ((k, v) ∷ a) ((l, w) ∷ b))
              same
              (both_changes-Tells k v w _ a b above_k
                (subst (λ (l : List ℕ). AllAbove l b) (sym same) above_l)
                (merge_loop-Tells rounds a b sa sb (omega (arith, enough)))))
      | inr (inr (more, o)) ↦
          rw (merge_loop, o)
            (added-Tells l w _ ((k, v) ∷ a) b (more, AllAbove-trans l k a more above_k)
              (merge_loop-Tells rounds ((k, v) ∷ a) b (above_k, sa) sb (omega (arith, enough))))
    ]
