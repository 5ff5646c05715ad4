-- ===== src/Text/Spaces.antt =====
-- What `trim` takes off.
use Prim.Native.String.{String, ◌++◌}
use text.Mathlib.TextLemmas.{append-ne-nil_of_right_ne-nil, nil-append, cons-append}
use mini_ran.Common.{◌≢◌, ◌≡◌, refl, ◌∙◌, ap, sym, true, false, inl, inr, Bool-cases}
use mini_ran.Text.{keep_before, trim_right, Char, trim, is_space, trim_left}

-- All of the text is white space.
abbrev pub IsBlank : String → Type 0
IsBlank String.[] = Unit {0}
IsBlank (String.◌∷◌ c s) = (is_space c ≡ true) × IsBlank s

-- The first character is no white space, if there is one.
abbrev pub StartsBare : String → Type 0
StartsBare String.[] = Unit {0}
StartsBare (String.◌∷◌ c s) = is_space c ≡ false

-- The last character is no white space, if there is one.
abbrev pub EndsBare : String → Type 0
EndsBare String.[] = Unit {0}
EndsBare (String.◌∷◌ c String.[]) = is_space c ≡ false
EndsBare (String.◌∷◌ c (String.◌∷◌ d s)) = EndsBare (String.◌∷◌ d s)

pub trim_left_blank : (b s : String) → IsBlank b → trim_left (b ++ s) ≡ trim_left s
unfolding trim_left
trim_left_blank String.[] s h = ap trim_left (nil-append s)
trim_left_blank (String.◌∷◌ c b) s h = rw (cons-append c b s, h.0) (trim_left_blank b s h.1)

pub trim_left_bare : (s : String) → StartsBare s → trim_left s ≡ s
unfolding trim_left
trim_left_bare String.[] h = refl
trim_left_bare (String.◌∷◌ c s) h = rw h refl

trim_left_splits :
    (s : String) → (b : String) × IsBlank b × (s ≡ b ++ trim_left s) × StartsBare (trim_left s)
unfolding trim_left
trim_left_splits String.[] = (String.[], tt, sym (nil-append String.[]), tt)
trim_left_splits (String.◌∷◌ c s) = elim (Bool-cases (is_space c)) [
  | inl space ↦
      let (b, blank, splits, bare) = trim_left_splits s in
      (
        String.◌∷◌ c b,
        (space, blank),
        rw space (ap (String.◌∷◌ c) splits ∙ sym (cons-append c b (trim_left s))),
        rw space bare,
      )
  | inr other ↦ (String.[], tt, rw other (sym (nil-append _)), rw other other)
]

keep_before_bare : (c : Char) (s : String) → is_space c ≡ false → keep_before c s ≡ String.◌∷◌ c s
unfolding keep_before
keep_before_bare c String.[] h = rw h refl
keep_before_bare c (String.◌∷◌ d s) h = refl

pub trim_right-IsBlank : (b : String) → IsBlank b → trim_right b ≡ String.[]
unfolding trim_right keep_before
trim_right-IsBlank String.[] h = refl
trim_right-IsBlank (String.◌∷◌ c b) h = rw (trim_right-IsBlank b h.1, h.0) refl

pub trim_right_blank : (s b : String) → IsBlank b → trim_right (s ++ b) ≡ trim_right s
unfolding trim_right
trim_right_blank String.[] b h = rw (nil-append b) (trim_right-IsBlank b h)
trim_right_blank (String.◌∷◌ c s) b h =
    rw (cons-append c s b) (ap (keep_before c) (trim_right_blank s b h))

pub trim_right_bare : (s : String) → EndsBare s → trim_right s ≡ s
unfolding trim_right keep_before
trim_right_bare String.[] h = refl
trim_right_bare (String.◌∷◌ c String.[]) h = rw h refl
trim_right_bare (String.◌∷◌ c (String.◌∷◌ d s)) h =
    ap (keep_before c) (trim_right_bare (String.◌∷◌ d s) h)

pub EndsBare-cons :
    (c : Char) (s : String)
    → EndsBare s
    → (s ≡ String.[] → is_space c ≡ false)
    → EndsBare (String.◌∷◌ c s)
EndsBare-cons c String.[] h e = e refl
EndsBare-cons c (String.◌∷◌ d s) h e = h

trim_right_splits :
    (s : String) → (b : String) × IsBlank b × (s ≡ trim_right s ++ b) × EndsBare (trim_right s)
unfolding trim_right keep_before
trim_right_splits String.[] = (String.[], tt, sym (nil-append String.[]), tt)
trim_right_splits (String.◌∷◌ c s) =
    let (b, blank, splits, bare) = trim_right_splits s in
    ends c s (trim_right s) b blank splits bare
  where
    ends :
        (c : Char) (s t b : String)
        → IsBlank b
        → s ≡ t ++ b
        → EndsBare t
        → (d : String) × IsBlank d
          × (String.◌∷◌ c s ≡ keep_before c t ++ d)
          × EndsBare (keep_before c t)
    ends c s String.[] b blank splits bare = elim (Bool-cases (is_space c)) [
      | inl space ↦ (
        String.◌∷◌ c b,
        (space, blank),
        rw space (ap (String.◌∷◌ c) (splits ∙ nil-append b) ∙ sym (nil-append _)),
        rw space tt,
      )
      | inr other ↦ (
        b,
        blank,
        rw other (ap (String.◌∷◌ c) splits ∙ sym (cons-append c String.[] b)),
        rw other other,
      )
    ]
    ends c s (String.◌∷◌ d t) b blank splits bare =
        (b, blank, ap (String.◌∷◌ c) splits ∙ sym (cons-append c (String.◌∷◌ d t) b), bare)

StartsBare-trim_right : (s : String) → StartsBare s → StartsBare (trim_right s)
unfolding trim_right
StartsBare-trim_right String.[] h = tt
StartsBare-trim_right (String.◌∷◌ c s) h = rw (keep_before_bare c (trim_right s) h) h

trim_left-IsBlank : (b : String) → IsBlank b → IsBlank (trim_left b)
unfolding trim_left
trim_left-IsBlank String.[] h = tt
trim_left-IsBlank (String.◌∷◌ c b) h = rw h.0 (trim_left-IsBlank b h.1)

-- Any text is white space, what `trim` leaves of it, and white space; and what is left has no white
-- space at its ends.
pub trim_lem :
    (s : String)
    → (a : String) × (b : String) × IsBlank a
      × IsBlank b
      × (s ≡ a ++ (trim s ++ b))
      × StartsBare (trim s)
      × EndsBare (trim s)
unfolding trim
trim_lem s =
    let (a, blank_a, left, starts) = trim_left_splits s in
    let (b, blank_b, right, ends) = trim_right_splits (trim_left s) in
    (
      a,
      b,
      blank_a,
      blank_b,
      left ∙ ap (λ t. a ++ t) right,
      StartsBare-trim_right (trim_left s) starts,
      ends,
    )

-- White space around a text that has none at its ends is taken off.
pub trim_framed :
    (a s b : String) → IsBlank a → IsBlank b → StartsBare s → EndsBare s → trim (a ++ (s ++ b)) ≡ s
unfolding trim
trim_framed a String.[] b ha hb h e =
    ap trim_right (trim_left_blank a (String.[] ++ b) ha ∙ ap trim_left (nil-append b)) ∙ blank b hb
  where
    blank : (b : String) → IsBlank b → trim_right (trim_left b) ≡ String.[]
    blank b hb = trim_right-IsBlank (trim_left b) (trim_left-IsBlank b hb)
trim_framed a (String.◌∷◌ c s) b ha hb h e =
    ap trim_right (
      trim_left_blank a (String.◌∷◌ c s ++ b) ha
      ∙ rw (cons-append c s b) (trim_left_bare (String.◌∷◌ c (s ++ b)) h)
      ∙ sym (cons-append c s b))
    ∙ trim_right_blank (String.◌∷◌ c s) b hb
    ∙ trim_right_bare (String.◌∷◌ c s) e

pub StartsBare-append : (s t : String) → s ≢ String.[] → StartsBare s → StartsBare (s ++ t)
StartsBare-append String.[] t n h = absurd (n refl)
StartsBare-append (String.◌∷◌ c s) t n h = rw (cons-append c s t) h

pub EndsBare-append : (s t : String) → t ≢ String.[] → EndsBare t → EndsBare (s ++ t)
EndsBare-append String.[] t n h = rw (nil-append t) h
EndsBare-append (String.◌∷◌ c s) t n h = rw (cons-append c s t) (
    EndsBare-cons c (s ++ t) (EndsBare-append s t n h)
      (λ e. absurd (append-ne-nil_of_right_ne-nil s n e)))
