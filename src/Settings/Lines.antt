-- ===== src/Settings/Lines.antt =====
-- The text of the settings, line by line.
use rdrive.Base.{
  ℕ, append_assoc, ◌≡◌, ◌≢◌, refl, ◌∙◌, ap, inl, inr, true, false, some, List, [], ◌∷◌, ◌++◌, arith,
  Bytes, bytes_eq, Bool-cases, if◌then◌else◌,
}
use rdrive.Base.Text.{trim}
use rdrive.Settings.{
  newline, return, pieces, strip_end, lines, split_once, join, ends_with_newline, ended, assignment,
  replaced, updated_lines, updated_text, sets,
}
use rdrive.Settings.Update.{HasNoEquals, setting, setting-updated_lines}

-- A line: no end of line in it, and no `\r` at its end.
abbrev pub IsLine : Bytes → Type 0
IsLine [] = Unit {0}
IsLine (c ∷ []) = (c ≢ newline) × (c ≢ return)
IsLine (c ∷ d ∷ s) = (c ≢ newline) × IsLine (d ∷ s)

abbrev pub AllLines : List Bytes → Type 0
AllLines [] = Unit {0}
AllLines (l ∷ ls) = IsLine l × AllLines ls

pieces-line :
    (l t : Bytes) → IsLine l → pieces (l ++ (newline ∷ t)) ≡ (l ++ (newline ∷ [])) ∷ pieces t
unfolding pieces
pieces-line [] t h = refl
pieces-line (c ∷ []) t h = ground (arith, h)
pieces-line (c ∷ d ∷ l) t (ne, h) = ground (arith, pieces-line (d ∷ l) t h)

strip_end-line : (l : Bytes) → IsLine l → strip_end (l ++ (newline ∷ [])) ≡ l
unfolding strip_end
strip_end-line [] h = refl
strip_end-line (c ∷ []) h = ground (arith, h)
strip_end-line (c ∷ d ∷ []) (ne, h) = ground (arith, strip_end-line (d ∷ []) h)
strip_end-line (c ∷ d ∷ e ∷ l) (ne, h) = ground (arith, strip_end-line (d ∷ e ∷ l) h)

-- A line in front of a text.
lines-line : (l t : Bytes) → IsLine l → lines (l ++ (newline ∷ t)) ≡ l ∷ lines t
unfolding lines
lines-line l t h = rw (pieces-line l t h, strip_end-line l h) refl

ends_with_newline-line : (l : Bytes) → IsLine l → ends_with_newline l ≡ false
unfolding ends_with_newline
ends_with_newline-line [] h = refl
ends_with_newline-line (c ∷ []) h = ground (arith, h)
ends_with_newline-line (c ∷ d ∷ l) (ne, h) = ends_with_newline-line (d ∷ l) h

ends_with_newline-append :
    (l t : Bytes) (c : ℕ) → ends_with_newline (l ++ (newline ∷ c ∷ t)) ≡ ends_with_newline (c ∷ t)
unfolding ends_with_newline
ends_with_newline-append [] t c = refl
ends_with_newline-append (a ∷ []) t c = refl
ends_with_newline-append (a ∷ b ∷ l) t c = ends_with_newline-append (b ∷ l) t c

ended-line : (l t : Bytes) (c : ℕ) → ended (l ++ (newline ∷ c ∷ t)) ≡ l ++ (newline ∷ ended (c ∷ t))
unfolding ended
ended-line l t c = elim (Bool-cases (ends_with_newline (c ∷ t))) [
  | inl e ↦ rw (ends_with_newline-append l t c, e) refl
  | inr e ↦ rw (ends_with_newline-append l t c, e) (append_assoc l (newline ∷ c ∷ t) (newline ∷ []))
]

ends_with_newline-ended : (l : Bytes) → ends_with_newline (l ++ (newline ∷ [])) ≡ true
unfolding ends_with_newline
ends_with_newline-ended [] = refl
ends_with_newline-ended (c ∷ []) = refl
ends_with_newline-ended (c ∷ d ∷ l) = ends_with_newline-ended (d ∷ l)

lines-last : (l : Bytes) → IsLine l → lines (l ++ (newline ∷ [])) ≡ l ∷ []
unfolding lines pieces
lines-last l h = lines-line l [] h

-- One more line in front.
setting-line :
    (g l : Bytes) (ms : List Bytes) (c : ℕ) (t : Bytes)
    → IsLine l
    → join ms ≡ c ∷ t
    → setting g (lines (ended (join ms))) ≡ setting g ms
    → setting g (lines (ended (l ++ (newline ∷ join ms)))) ≡ setting g (l ∷ ms)
unfolding setting
setting-line g l ms c t h e ih =
    let front : lines (ended (l ++ (newline ∷ join ms))) ≡ l ∷ lines (ended (join ms)) =
      rw e (ap lines (ended-line l t c) ∙ lines-line l (ended (c ∷ t)) h) in
    rw (front, ih) refl

-- The lines of the joined text give each field the value that the lines gave it. An empty last line is lost.
setting-join :
    (g : Bytes) (ls : List Bytes)
    → AllLines ls
    → ls ≢ []
    → setting g (lines (ended (join ls))) ≡ setting g ls
unfolding join ended setting split_once
setting-join g [] h some_line = absurd (some_line refl)
setting-join g (l ∷ []) (h, _) some_line = rw (ends_with_newline-line l h, lines-last l h) refl
setting-join g (l ∷ [] ∷ []) (h, _) some_line = rw (ends_with_newline-ended l, lines-last l h) refl
setting-join g (l ∷ (c ∷ m) ∷ []) (h, hs) some_line =
    setting-line g l ((c ∷ m) ∷ []) c m h refl (setting-join g ((c ∷ m) ∷ []) hs (λ e. cc))
setting-join g (l ∷ [] ∷ n ∷ ls) (h, hs) some_line =
    setting-line g l ([] ∷ n ∷ ls) newline (join (n ∷ ls)) h refl
      (setting-join g ([] ∷ n ∷ ls) hs (λ e. cc))
setting-join g (l ∷ (c ∷ m) ∷ n ∷ ls) (h, hs) some_line =
    setting-line g l ((c ∷ m) ∷ n ∷ ls) c (m ++ (newline ∷ join (n ∷ ls))) h refl
      (setting-join g ((c ∷ m) ∷ n ∷ ls) hs (λ e. cc))

AllLines-replaced :
    (field value : Bytes) (ls : List Bytes)
    → IsLine (assignment field value)
    → AllLines ls
    → AllLines (replaced field value ls).0
unfolding replaced
AllLines-replaced field value [] h hs = tt
AllLines-replaced field value (l ∷ ls) h (hl, hs) = elim (Bool-cases (sets field l)) [
  | inl e ↦ rw e (h, AllLines-replaced field value ls h hs)
  | inr e ↦ rw e (hl, AllLines-replaced field value ls h hs)
]

AllLines-append : (ls : List Bytes) (l : Bytes) → AllLines ls → IsLine l → AllLines (ls ++ (l ∷ []))
AllLines-append [] l hs h = (h, tt)
AllLines-append (m ∷ ls) l (hm, hs) h = (hm, AllLines-append ls l hs h)

updated_lines-ne-nil :
    (field value : Bytes) (ls : List Bytes) → (updated_lines field value ls).0 ≢ []
unfolding updated_lines replaced
updated_lines-ne-nil field value [] = λ e. cc
updated_lines-ne-nil field value (l ∷ ls) = elim (Bool-cases (sets field l)) [
  | inl e ↦ rw e (λ p. cc)
  | inr e ↦ elim (Bool-cases (replaced field value ls).1) [
    | inl f ↦ rw (e, f) (λ p. cc)
    | inr f ↦ rw (e, f) (λ p. cc)
  ]
]

AllLines-updated_lines :
    (field value : Bytes) (ls : List Bytes)
    → IsLine (assignment field value)
    → AllLines ls
    → AllLines (updated_lines field value ls).0
unfolding updated_lines
AllLines-updated_lines field value ls h hs =
    let kept = AllLines-replaced field value ls h hs in
    elim (Bool-cases (replaced field value ls).1) [
      | inl f ↦ rw f kept
      | inr f ↦ rw f (AllLines-append (replaced field value ls).0 (assignment field value) kept h)
    ]

-- A text that was updated reads back: the first line for the field gives it its new value, and every other field
-- has the value that it had. Field and value make one line, the field has no `=` and no space around it, and no
-- line of the old text ends in a `\r` of its own.
pub setting-updated_text :
    (field value content g : Bytes)
    → HasNoEquals field
    → trim field ≡ field
    → IsLine (assignment field value)
    → AllLines (lines content)
    → setting g (lines (updated_text field value content).0)
      ≡ (if bytes_eq field g then some value else setting g (lines content))
unfolding updated_text
setting-updated_text field value content g plain tight one_line old_lines =
    let ls = (updated_lines field value (lines content)).0 in
    setting-join g ls (AllLines-updated_lines field value (lines content) one_line old_lines)
      (updated_lines-ne-nil field value (lines content))
    ∙ (setting-updated_lines field value plain tight g (lines content)).0
