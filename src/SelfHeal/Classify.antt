-- ===== src/SelfHeal/Classify.antt =====
-- What a failing test is taken for, and the counts of the classes.
use mathlib.Core.List.{Memᴰ}
use mathlib.Core.List.Memᴰ
use othala.Base.{
  ℕ, ◌+◌, ◌^◌, ◌<◌, ◌%◌, Bool, true, false, List, [], ◌∷◌, ◌++◌, String, count, length, ◌≡◌, refl,
  ap, ◌∙◌, ◌↔◌, inl, inr, if◌then◌else◌, arith, unwrap_or, ◌==◌, Bool-cases,
}
use othala.Base.Text.{chars}
use othala.Base.Assoc.{Assoc, get, insert, get-insert}
use othala.SelfHeal.{
  QaTestResult, QaFailureClass, regression, flaky, environment_issue, acceptance_gap, class_eq,
  starts_with, contains_word, to_ascii_lowercase, contains_any, environment_words, flaky_words,
  classify_failure, count_classes,
}

-- The text contains the word somewhere.
abbrev pub Contains : List ℕ → List ℕ → Type 0
Contains text word = (front back : List ℕ) × (text ≡ front ++ word ++ back)

starts_with_sound :
    (text word : List ℕ) → starts_with text word ≡ true → (back : List ℕ) × (text ≡ word ++ back)
starts_with_sound text [] h = (text, refl)
starts_with_sound [] (w ∷ word) h = absurd (ground arith)
starts_with_sound (c ∷ text) (w ∷ word) h =
    let same : c ≡ w = ground arith in
    let (back, e) = starts_with_sound text word (ground arith) in
    (back, ap (λ d. d ∷ text) same ∙ ap (λ rest. w ∷ rest) e)

starts_with-append : (word back : List ℕ) → starts_with (word ++ back) word ≡ true
starts_with-append [] [] = refl
starts_with-append [] (c ∷ back) = refl
starts_with-append (w ∷ word) back = ground (arith, starts_with-append word back)

contains_word_sound : (text word : List ℕ) → contains_word text word ≡ true → Contains text word
contains_word_sound [] [] h = ([], [], refl)
contains_word_sound [] (w ∷ word) h = absurd (ground arith)
contains_word_sound (c ∷ text) word h = elim (Bool-cases (starts_with (c ∷ text) word)) [
  | inl now ↦ let (back, e) = starts_with_sound (c ∷ text) word now in ([], back, e)
  | inr later ↦
      let (front, back, e) = contains_word_sound text word (rw later at h) in
      (c ∷ front, back, ap (λ rest. c ∷ rest) e)
]

contains_word_complete :
    (front word back : List ℕ) → contains_word (front ++ word ++ back) word ≡ true
contains_word_complete [] [] [] = refl
contains_word_complete [] [] (c ∷ back) = refl
contains_word_complete [] (w ∷ word) back = ground (arith, starts_with-append (w ∷ word) back)
contains_word_complete (c ∷ front) word back =
    ground (arith, contains_word_complete front word back)

-- The text contains one of the words.
abbrev pub Mentions : List ℕ → List String → Type 0
Mentions text words = (word : String) × Memᴰ word words × Contains text (chars word)

contains_any_iff :
    (text : List ℕ) (words : List String) → (contains_any text words ≡ true) ↔ Mentions text words
contains_any_iff text [] = (λ h. absurd (ground arith), λ (word, m, _). elim m [ ])
contains_any_iff text (word ∷ words) = (
  λ h. elim (Bool-cases (contains_word text (chars word))) [
    | inl now ↦ (word, Memᴰ.head refl, contains_word_sound text (chars word) now)
    | inr later ↦
        let (other, m, found) = (contains_any_iff text words).0 (rw later at h) in
        (other, Memᴰ.tail m, found)
  ],
  λ (other, m, (front, back, e)). elim (Memᴰ.cases_cons m) [
    | inl same ↦
        let hit : contains_word text (chars word) ≡ true =
          rw (e, same) (contains_word_complete front (chars word) back) in
        ground (arith, hit)
    | inr later ↦ ground (arith, (contains_any_iff text words).1 (other, later, (front, back, e)))
  ],
)

classes :
    {E F : Type 0} (passed environment unsteady : Bool)
    → (environment ≡ true) ↔ E
    → (unsteady ≡ true) ↔ F
    → let class : QaFailureClass =
        if environment
        then environment_issue
        else if unsteady
        then flaky
        else if passed
        then regression
        else acceptance_gap in
      ((class ≡ environment_issue) ↔ E)
      × ((class ≡ flaky) ↔ ((¬ E) × F))
      × ((class ≡ regression) ↔ ((¬ E) × (¬ F) × (passed ≡ true)))
      × ((class ≡ acceptance_gap) ↔ ((¬ E) × (¬ F) × (passed ≡ false)))
classes passed environment unsteady e f = ground (arith, e, f)

-- What a failing test is taken for, by its lower-case detail: an issue of the environment exactly
-- if the detail mentions a word for one; else flaky exactly if it mentions a word for that; else a
-- regression exactly if the test passed in the baseline, and an acceptance gap if it did not.
pub classify_failure-classes :
    (test : QaTestResult) (baseline_passed : Bool)
    → let detail = to_ascii_lowercase (chars test.detail) in
      let class = classify_failure test baseline_passed in
      ((class ≡ environment_issue) ↔ Mentions detail environment_words)
      × ((class ≡ flaky) ↔ ((¬ Mentions detail environment_words) × Mentions detail flaky_words))
      × ((class ≡ regression) ↔ (
          (¬ Mentions detail environment_words)
          × (¬ Mentions detail flaky_words)
          × (baseline_passed ≡ true)))
      × ((class ≡ acceptance_gap) ↔ (
          (¬ Mentions detail environment_words)
          × (¬ Mentions detail flaky_words)
          × (baseline_passed ≡ false)))
unfolding classify_failure
classify_failure-classes test baseline_passed =
    let detail = to_ascii_lowercase (chars test.detail) in
    classes baseline_passed (contains_any detail environment_words)
      (contains_any detail flaky_words) (contains_any_iff detail environment_words)
      (contains_any_iff detail flaky_words)

-- The count of a class, none being nothing.
abbrev counted : Assoc QaFailureClass ℕ → QaFailureClass → ℕ
counted counts class = unwrap_or (get counts class) 0

counted-insert :
    (counts : Assoc QaFailureClass ℕ) (c class : QaFailureClass) (n : ℕ)
    → counted (insert counts c n) class ≡ (if c == class then n else counted counts class)
counted-insert counts c class n = ground (arith, get-insert counts c class n)

count_classes_lem :
    (found : List (String × QaFailureClass)) (counts : Assoc QaFailureClass ℕ)
    (class : QaFailureClass)
    → ((c : QaFailureClass) → counted counts c + length found < 2 ^ 32)
    → counted (count_classes found counts) class
      ≡ counted counts class + count (λ entry. entry.1 == class) found
unfolding count_classes
count_classes_lem [] counts class small = ground arith
count_classes_lem ((_, c) ∷ rest) counts class small =
    let n = (counted counts c + 1) % 2 ^ 32 in
    let room : (c' : QaFailureClass) → counted (insert counts c n) c' + length rest < 2 ^ 32 =
      λ c'. ground (arith, counted-insert counts c c' n, small c', small c) in
    let later = count_classes_lem rest (insert counts c n) class room in
    ground (arith, later, counted-insert counts c class n, small c, class_eq.same_iff c class)

-- The counts of the classes are right for a list shorter than `2^32`: each class is counted as
-- often as the list has entries of it.
pub count_classes-count :
    (found : List (String × QaFailureClass)) (class : QaFailureClass)
    → length found < 2 ^ 32
    → unwrap_or (get (count_classes found []) class) 0 ≡ count (λ entry. entry.1 == class) found
count_classes-count found class small =
    let nothing : (c : QaFailureClass) → counted [] c ≡ 0 = λ c. unfold get in refl in
    let room : (c : QaFailureClass) → counted [] c + length found < 2 ^ 32 =
      λ c. ground (arith, nothing c) in
    let counts = count_classes_lem found [] class room in ground (arith, counts, nothing class)
