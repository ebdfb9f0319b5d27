-- ===== src/Ring/Language.antt =====
-- The language of the ring expression, described without a matcher.
use Prim.Native.Char.{Char}
use Prim.Native.String.{[], ◌∷◌}
use Prim.Native.String.append
use text.Mathlib.TextEquality.{Char-path}
use text.Mathlib.TextLemmas.{cons≢nil}
use mathlib.Core.Option
use mathlib.Core.List.{List}
use habitat_operator.Base.{
  ℕ, zero, suc, ◌+◌, ◌≤◌, String, ◌<>◌, ◌≡◌, refl, sym, ◌∙◌, ap, Bool, true, false, Option, none,
  some, arith, ◌⊎◌, inl, inr, ◌≢◌, ◌↔◌, Option-cases, if◌then◌else◌,
}
use habitat_operator.Ring.{
  is_digit, is_hyphen, is_name_char, ends_in_digits, is_revision, name_loop, ring_group,
  first_match, find_string_submatch, submatches,
}

abbrev pub length : String → ℕ
length [] = 0
length (c ∷ s) = suc (length s)

abbrev pub AllChars : (Char → Bool) → String → Type 0
AllChars p [] = Unit
AllChars p (c ∷ s) = (p c ≡ true) × AllChars p s

-- A name followed by a hyphen and a revision of fourteen digits.
pub record IsRing (s g d : String) : Type 0 where
  pub text : s ≡ g <> ("-" <> d)
  pub name : AllChars is_name_char g
  pub digits : AllChars is_digit d
  pub revision : length d ≡ 14

hyphen_lem : (c : Char) → is_hyphen c ≡ true → c ≡ "-"
hyphen_lem c h = Char-path c "-" (ground arith)

ends_in_digits_sound :
    (n : ℕ) (s : String) → ends_in_digits n s ≡ true → AllChars is_digit s × (length s ≡ n)
unfolding ends_in_digits
ends_in_digits_sound zero [] h = (tt, refl)
ends_in_digits_sound zero (c ∷ s) h = ground arith
ends_in_digits_sound (suc n) [] h = ground arith
ends_in_digits_sound (suc n) (c ∷ s) h = ground (arith, ends_in_digits_sound n s)

ends_in_digits_complete :
    (n : ℕ) (s : String) → AllChars is_digit s → length s ≡ n → ends_in_digits n s ≡ true
unfolding ends_in_digits
ends_in_digits_complete zero [] a l = refl
ends_in_digits_complete zero (c ∷ s) a l = absurd (omega arith)
ends_in_digits_complete (suc n) [] a l = absurd (omega arith)
ends_in_digits_complete (suc n) (c ∷ s) a l = ground (arith, ends_in_digits_complete n s a.1)

cons-append : (c : Char) (s t : String) → (c ∷ s) <> t ≡ c ∷ (s <> t)
cons-append c s t = append.cons c s t

nil-append : (t : String) → [] <> t ≡ t
nil-append t = append.nil t

hyphen-append : (d : String) → "-" <> d ≡ "-" ∷ d
hyphen-append d = cons-append "-" [] d ∙ ap (◌∷◌ "-") (nil-append d)

is_revision_sound :
    (s : String)
    → is_revision s ≡ true
    → (d : String) × (s ≡ "-" <> d) × AllChars is_digit d × (length d ≡ 14)
unfolding is_revision
is_revision_sound [] h = cc
is_revision_sound (c ∷ s) h =
    let same : c ≡ "-" = hyphen_lem c (ground arith) in
    let parts = ends_in_digits_sound 14 s (ground arith) in
    (s, ap (λ x. x ∷ s) same ∙ sym (hyphen-append s), parts.0, parts.1)

is_revision_complete :
    (d : String) → AllChars is_digit d → length d ≡ 14 → is_revision ("-" ∷ d) ≡ true
unfolding is_revision
is_revision_complete d a l = rw (ends_in_digits_complete 14 d a l)

-- How a loop that matched went: it took this character, or it stopped here.
step_cases :
    (c : Char) (o : Option String) (n r : Bool) (g : String)
    → first_match (if n then Option.map (◌∷◌ c) o else none) r ≡ some g
    → ((g' : String) × (o ≡ some g') × (n ≡ true) × (g ≡ c ∷ g')) ⊎ ((g ≡ []) × (r ≡ true))
step_cases c none true true g h = inr (cc, refl)
step_cases c none true false g h = cc
step_cases c none false true g h = inr (cc, refl)
step_cases c none false false g h = cc
step_cases c (some g') true r g h = inl (g', refl, refl, cc)
step_cases c (some g') false true g h = inr (cc, refl)
step_cases c (some g') false false g h = cc

IsRing-cons :
    (c : Char) (s g' g d : String)
    → is_name_char c ≡ true
    → g ≡ c ∷ g'
    → IsRing s g' d
    → IsRing (c ∷ s) g d
IsRing-cons c s g' g d n e r = record {
  text = ap (◌∷◌ c) r.text ∙ sym (cons-append c g' _) ∙ ap (λ x. x <> ("-" <> d)) (sym e);
  name = rw e (n, r.name);
  digits = r.digits;
  revision = r.revision;
}

IsRing-nil : (s g : String) → g ≡ [] → is_revision s ≡ true → (d : String) × IsRing s g d
IsRing-nil s g e h =
    let (d, t, a, l) = is_revision_sound s h in
    (
      d,
      record {
        text = t ∙ sym (nil-append _) ∙ ap (λ x. x <> ("-" <> d)) (sym e);
        name = rw e tt;
        digits = a;
        revision = l;
      },
    )

name_loop_sound : (s g : String) → name_loop s ≡ some g → (d : String) × IsRing s g d
unfolding name_loop
name_loop_sound [] g h = cc
name_loop_sound (c ∷ s) g h =
    elim (step_cases c (name_loop s) (is_name_char c) (is_revision (c ∷ s)) g h) [
      | inl (g', e, n, p) ↦ let (d, r) = name_loop_sound s g' e in (d, IsRing-cons c s g' g d n p r)
      | inr (e, r) ↦ IsRing-nil (c ∷ s) g e r
    ]

-- Whatever the loop matches leaves fifteen characters.
length-append : (s t : String) → length (s <> t) ≡ length s + length t
length-append [] t = rw nil-append (omega arith)
length-append (c ∷ s) t = rw cons-append (omega (arith, length-append s t))

pub length-IsRing : (s g d : String) → IsRing s g d → length s ≡ length g + 15
length-IsRing s g d r =
    ap length r.text
    ∙ length-append g ("-" <> d)
    ∙ ap (λ (n : ℕ). length g + n) (ap length (hyphen-append d) ∙ omega (arith, r.revision))

name_loop_short : (s : String) → length s ≤ 14 → name_loop s ≡ none
name_loop_short s h = elim (Option-cases (name_loop s)) [
  | inl e ↦ e
  | inr (g, e) ↦ let (d, r) = name_loop_sound s g e in absurd (omega (arith, length-IsRing s g d r))
]

name_loop_complete :
    (g d : String)
    → AllChars is_name_char g
    → AllChars is_digit d
    → length d ≡ 14
    → name_loop (g <> ("-" <> d)) ≡ some g
unfolding name_loop
name_loop_complete [] d a b l =
    rw (nil-append, hyphen-append, name_loop_short d (omega arith), is_revision_complete d b l)
name_loop_complete (c ∷ g) d a b l = rw (cons-append, name_loop_complete g d a.1 b l, a.0)

group_cases :
    (c : Char) (o : Option String) (n : Bool) (g : String)
    → (if n then Option.map (◌∷◌ c) o else none) ≡ some g
    → (g' : String) × (o ≡ some g') × (n ≡ true) × (g ≡ c ∷ g')
group_cases c none true g h = cc
group_cases c none false g h = cc
group_cases c (some g') true g h = (g', refl, refl, cc)
group_cases c (some g') false g h = cc

ring_group_sound : (s g : String) → ring_group s ≡ some g → (g ≢ []) × ((d : String) × IsRing s g d)
unfolding ring_group
ring_group_sound [] g h = cc
ring_group_sound (c ∷ s) g h =
    let (g', e, n, p) = group_cases c (name_loop s) (is_name_char c) g h in
    let (d, r) = name_loop_sound s g' e in
    (λ z. cons≢nil (sym p ∙ z), (d, IsRing-cons c s g' g d n p r))

ring_group_complete : (s g d : String) → g ≢ [] → IsRing s g d → ring_group s ≡ some g
unfolding ring_group
ring_group_complete s [] d e r = absurd (e refl)
ring_group_complete s (c ∷ g) d e r =
    rw (r.text, cons-append, name_loop_complete g d r.name.1 r.digits r.revision, r.name.0)

-- The group of a match: what is read off the list that `FindStringSubmatch` returns.
submatch_cases :
    (s g : String) (o : Option String)
    → submatches s o ≡ List.◌∷◌ s (List.◌∷◌ g List.[])
    → o ≡ some g
submatch_cases s g none h = cc
submatch_cases s g (some g') h = cc

-- A ring secret's name matches exactly when it is a nonempty name, a hyphen and fourteen digits;
-- the group is that name.
pub find_string_submatch_iff :
    (s g : String)
    → (find_string_submatch s ≡ List.◌∷◌ s (List.◌∷◌ g List.[]))
      ↔ ((g ≢ []) × ((d : String) × IsRing s g d))
unfolding find_string_submatch
find_string_submatch_iff s g = (
  λ h. ring_group_sound s g (submatch_cases s g (ring_group s) h),
  λ h. rw (ring_group_complete s g h.1.0 h.0 h.1.1, find_string_submatch),
)

-- Where the expression matches at all, the result has the group.
pub find_string_submatch_cases :
    (s : String)
    → (find_string_submatch s ≡ List.[])
      ⊎ ((g : String) × (find_string_submatch s ≡ List.◌∷◌ s (List.◌∷◌ g List.[])))
unfolding find_string_submatch
find_string_submatch_cases s = elim (Option-cases (ring_group s)) [
  | inl e ↦ inl (rw (e, find_string_submatch))
  | inr (g, e) ↦ inr (g, rw (e, find_string_submatch))
]
