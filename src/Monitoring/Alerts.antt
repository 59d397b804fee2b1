-- ===== src/Monitoring/Alerts.antt =====
-- monitoring.py: `one_line` and `_alert_detail`.
use nexus_controller.Prelude.{
  ℕ, zero, suc, ◌-◌, ◌≤◌, String, ◌≡◌, refl, inl, inr, Bool, false, not, ◌&&◌, List, [], ◌∷◌, arith,
  ltb, nat_beq, if◌then◌else◌, Bool-cases, nat_eq, string_eq, pair_eq, length, take,
}
use nexus_controller.Prelude.Text
use nexus_controller.Prelude.Text.Lines.{
  length-append as text_length-append, length-take-le as text_length-take-le, length-rstrip-le,
  any_code-append, any_code-take, any_code-rstrip, any_code-join, split-NoneHas, NoneHas-weaken,
}

abbrev pub alert_text_max : ℕ
alert_text_max = 140

abbrev pub alert_text_shown : ℕ
alert_text_shown = 3

-- text[:limit - 1]; at limit 0 Python counts -1 from the end.
before_limit : ℕ → String → String
before_limit zero text = Text.drop_last text
before_limit (suc n) text = Text.take n text

unfoldable pub one_line : String → ℕ → String
unfolding before_limit
one_line text limit =
    let line = Text.join " " (Text.split text) in
    if ltb limit (Text.length line)
    then Prim.Native.String.◌++◌ (Text.rstrip (before_limit limit line)) "…"
    else line

unfoldable pub alert_detail : ℕ → List String → String
alert_detail n [] = Text.concat (Text.decimal n ∷ " active alert(s)" ∷ [])
alert_detail n (t ∷ texts) =
    let shown = take alert_text_shown (t ∷ texts) in
    let more = n - length shown in
    if nat_beq n 1
    then t
    else Text.concat (
        Text.decimal n
        ∷ " active alerts: "
        ∷ Text.join "; " shown
        ∷ (if ltb 0 more then Text.concat (" (+" ∷ Text.decimal more ∷ " more)" ∷ []) else "")
        ∷ [])

-- White space other than the plain blank: line ends, tabs and the like.
abbrev pub breaks : ℕ → Bool
breaks c = Text.is_space c && not (nat_beq c 32)

breaks-le-space :
    (w : String) → Text.any_code Text.is_space w ≡ false → Text.any_code breaks w ≡ false
unfolding Text.any_code
breaks-le-space Prim.Native.String.String.[] h = refl
breaks-le-space (Prim.Native.String.String.◌∷◌ c w) h = ground (arith, breaks-le-space w)

ellipsis-no_breaks : Text.any_code breaks "…" ≡ false
unfolding Text.any_code Text.is_space
ellipsis-no_breaks = refl

join-no_breaks : (text : String) → Text.any_code breaks (Text.join " " (Text.split text)) ≡ false
unfolding Text.any_code Text.is_space
join-no_breaks text =
    any_code-join breaks " " (Text.split text) refl
      (NoneHas-weaken Text.is_space breaks (Text.split text) breaks-le-space (split-NoneHas text))

-- For a limit of at least one character, the text that goes into a notification line is no longer
-- than the limit, and its only white space is the plain blank: no line end, no tab.
pub one_line_bounds :
    (text : String) (limit : ℕ)
    → 1 ≤ limit
    → (Text.length (one_line text limit) ≤ limit)
      × (Text.any_code breaks (one_line text limit) ≡ false)
unfolding one_line
one_line_bounds text zero h = absurd (omega arith)
one_line_bounds text (suc n) h =
    let line = Text.join " " (Text.split text) in
    elim (Bool-cases (ltb (suc n) (Text.length line))) [
      | inl long ↦ rw long (
        rw text_length-append
            (omega (arith, text_length-take-le n line, length-rstrip-le (Text.take n line))),
        rw any_code-append (
            rw
              (any_code-rstrip breaks (Text.take n line)
                (any_code-take breaks n line (join-no_breaks text)))
              ellipsis-no_breaks),
      )
      | inr short ↦ rw short (ground arith, join-no_breaks text)
    ]
