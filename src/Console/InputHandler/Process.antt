-- ===== src/Console/InputHandler/Process.antt =====
-- Every operation keeps the cursor and the history position where they belong.
use securepath.Base.{
  ℕ, zero, suc, ◌+◌, ◌-◌, ◌<◌, ◌≡◌, refl, Bool, List, [], ◌∷◌, ◌++◌, Option, none, some, arith,
  length, leb, ◌==◌, Bool-cases, inl, inr, length-append, subst,
}
use securepath.Console.InputHandler.{
  InputHandler, InputKey, Input, backspace, left_arrow, right_arrow, up_arrow, down_arrow, del,
  home, end, insert, other_key, set_string, up_from, down_from, on_key, typed, process, commit,
  clear,
}
use securepath.Console.InputHandler.Cursor.{
  IsWithin, IsSound, at_end-IsSound, put_char-IsSound, on_backspace-IsSound, on_left-IsSound,
  on_right-IsSound, on_del-IsSound,
}

-- Any string may be set, whatever it replaces.
set_string-IsSound :
    (h : InputHandler) (s : List ℕ)
    → 0 < h.max_size
    → IsWithin h.history_pos (length h.history)
    → IsSound (set_string h s).1
unfolding set_string
set_string-IsSound h s window within = at_end-IsSound (record h { str = s }) window within

up_from-IsSound :
    (h : InputHandler) (at : Option ℕ) → h.history_pos ≡ at → IsSound h → IsSound (up_from h at).1
unfolding up_from
up_from-IsSound h (some zero) e sound = sound
up_from-IsSound h (some (suc i)) e sound =
    let within : suc i < length h.history =
      subst (λ p. IsWithin p (length h.history)) e sound.in_history in
    let w = sound.in_window in
    set_string-IsSound (record h { history_pos = some i }) _ (omega arith) (omega arith)
up_from-IsSound h none e sound = elim (Bool-cases (length h.history == 0)) [
  | inl empty ↦ rw empty sound
  | inr full ↦
      let w = sound.in_window in
      rw full (
        set_string-IsSound
          (record h { temp_str = h.str; history_pos = some (length h.history - 1) }) _ (omega arith)
          (ground arith))
]

down_from-IsSound : (h : InputHandler) (at : Option ℕ) → IsSound h → IsSound (down_from h at).1
unfolding down_from
down_from-IsSound h none sound = sound
down_from-IsSound h (some i) sound =
    let w = sound.in_window in
    elim (Bool-cases (leb (length h.history) (i + 1))) [
      | inl last ↦
          let back =
            set_string-IsSound (record h { history_pos = none }) h.temp_str (omega arith) tt in
          rw last (record {
            in_string = back.in_string;
            in_window = back.in_window;
            in_history = back.in_history;
          })
      | inr more ↦ rw more (
          set_string-IsSound (record h { history_pos = some (i + 1) }) _ (omega arith)
            (ground arith))
    ]

on_key-IsSound : (h : InputHandler) (key : InputKey) → IsSound h → IsSound (on_key h key).1
unfolding on_key
on_key-IsSound h backspace sound = on_backspace-IsSound h sound
on_key-IsSound h left_arrow sound = on_left-IsSound h sound
on_key-IsSound h right_arrow sound = on_right-IsSound h sound
on_key-IsSound h up_arrow sound = up_from-IsSound h h.history_pos refl sound
on_key-IsSound h down_arrow sound = down_from-IsSound h h.history_pos sound
on_key-IsSound h del sound = on_del-IsSound h sound
on_key-IsSound h home sound =
    let w = sound.in_window in
    record { in_string = omega arith; in_window = omega arith; in_history = sound.in_history }
on_key-IsSound h end sound =
    let w = sound.in_window in at_end-IsSound h (omega arith) sound.in_history
on_key-IsSound h insert sound = record {
  in_string = sound.in_string;
  in_window = sound.in_window;
  in_history = sound.in_history;
}
on_key-IsSound h other_key sound = sound

-- Whatever is typed, the cursor stays within the window and, with the window's place, within the
-- string, which is the assertion at the end of `process`; and a position in the history stays within
-- the history, so that no entry out of range is read.
pub process-IsSound :
    (printable : ℕ → Bool) (h : InputHandler) (input : Input)
    → IsSound h
    → IsSound (process printable h input).1
unfolding process typed
process-IsSound printable h input sound = go input.ch
  where
    go : (ch : Option ℕ) → IsSound (typed printable h ch input.key).1
    go none = on_key-IsSound h input.key sound
    go (some c) = elim (Bool-cases (printable c)) [
      | inl shown ↦ rw shown (put_char-IsSound h sound c)
      | inr hidden ↦ rw hidden (on_key-IsSound h input.key sound)
    ]

-- A committed line leaves a sound handler with one more entry in the history.
pub commit-IsSound :
    (h : InputHandler)
    → IsSound h
    → IsSound (commit h) × (length (commit h).history ≡ length h.history + 1)
unfolding commit clear
commit-IsSound h sound =
    let w = sound.in_window in
    let more = length-append h.history (h.str ∷ []) in
    (
      record {
        in_string = omega arith;
        in_window = omega arith;
        in_history = still_within h.history_pos sound.in_history;
      },
      omega arith,
    )
  where
    still_within :
        (at : Option ℕ)
        → IsWithin at (length h.history)
        → IsWithin at (length (h.history ++ h.str ∷ []))
    still_within none within = tt
    still_within (some i) within = omega (arith, length-append h.history (h.str ∷ []))
