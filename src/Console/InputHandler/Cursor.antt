-- ===== src/Console/InputHandler/Cursor.antt =====
-- The cursor stays in the window and in the string, and the history position in the history.
use securepath.Base.{
  ℕ, suc, ◌+◌, ◌-◌, ◌≤◌, ◌<◌, ◌≡◌, List, [], ◌∷◌, Option, none, some, arith, length, take, drop,
  ltb, leb, Bool-cases, inl, inr, length-append, length-take, length-drop,
}
use securepath.Console.InputHandler.{
  InputHandler, at_end, with_char, put_char, on_backspace, on_left, on_right, on_del, place,
  erase_at,
}

abbrev pub IsWithin : Option ℕ → ℕ → Type 0
IsWithin none n = Unit {0}
IsWithin (some i) n = i < n

pub record IsSound (h : InputHandler) : Type 0 where
  pub in_string : h.str_pos + h.cursor_pos ≤ length h.str
  pub in_window : h.cursor_pos < h.max_size
  pub in_history : IsWithin h.history_pos (length h.history)

length-erase_at : (n : ℕ) (s : List ℕ) → n < length s → length (erase_at n s) ≡ length s - 1
length-erase_at n s lt =
    omega (arith, length-append (take n s) (drop (suc n) s), length-take n s, length-drop (suc n) s)

length-with_char :
    (h : InputHandler) (c : ℕ)
    → (length h.str ≤ length (with_char h c))
      × (place h < length (with_char h c) + (place h - length h.str))
unfolding with_char
length-with_char h c = elim (Bool-cases (leb (length h.str) (place h))) [
  | inl past ↦ let size = length-append h.str (c ∷ []) in rw past (omega arith, ground arith)
  | inr within ↦
      let lt : place h < length h.str = ground arith in
      let front = length-take (place h) h.str in
      let size = length-append (take (place h) h.str) (c ∷ drop (place h) h.str) in
      let size' = length-append (take (place h) h.str) (c ∷ drop (suc (place h)) h.str) in
      let rest = length-drop (place h) h.str in
      let rest' = length-drop (suc (place h)) h.str in
      elim (Bool-cases h.insert_mode) [
        | inl inserts ↦ rw (within, inserts) (omega arith, omega arith)
        | inr over ↦ rw (within, over) (omega arith, omega arith)
      ]
]

module _ (h : InputHandler) (window : 0 < h.max_size) where
  pub at_end-IsSound : IsWithin h.history_pos (length h.history) → IsSound (at_end h)
  unfolding at_end
  at_end-IsSound within = elim (Bool-cases (leb h.max_size (length h.str))) [
    | inl long ↦ record {
      in_string = rw long (ground arith);
      in_window = rw long (omega arith);
      in_history = within;
    }
    | inr short ↦ record {
      in_string = rw short (omega arith);
      in_window = rw short (ground arith);
      in_history = within;
    }
  ]

module _ (h : InputHandler) (sound : IsSound h) where
  pub put_char-IsSound : (c : ℕ) → IsSound (put_char h c).1
  unfolding put_char
  put_char-IsSound c =
      let longer = length-with_char h c in
      let s = sound.in_string in
      let w = sound.in_window in
      elim (Bool-cases (leb h.max_size (h.cursor_pos + 1))) [
        | inl full ↦ rw full (record {
          in_string = ground arith;
          in_window = omega arith;
          in_history = sound.in_history;
        })
        | inr free ↦ rw free (record {
          in_string = omega arith;
          in_window = ground arith;
          in_history = sound.in_history;
        })
      ]

  pub on_backspace-IsSound : IsSound (on_backspace h).1
  unfolding on_backspace
  on_backspace-IsSound =
      let s = sound.in_string in
      let w = sound.in_window in
      elim (Bool-cases (ltb 0 h.cursor_pos)) [
        | inl moved ↦
            let lo : 0 < h.cursor_pos = ground arith in
            let size = length-erase_at (h.str_pos + (h.cursor_pos - 1)) h.str (omega arith) in
            rw moved (record {
              in_string = omega arith;
              in_window = omega arith;
              in_history = sound.in_history;
            })
        | inr first ↦ elim (Bool-cases (ltb 0 h.str_pos)) [
          | inl scrolled ↦
              let lo : 0 < h.str_pos = ground arith in
              let size = length-erase_at (h.str_pos - 1) h.str (omega arith) in
              rw (first, scrolled)
                (record { in_string = omega arith; in_window = w; in_history = sound.in_history })
          | inr start ↦ rw (first, start) sound
        ]
      ]

  pub on_left-IsSound : IsSound (on_left h).1
  unfolding on_left
  on_left-IsSound =
      let s = sound.in_string in
      let w = sound.in_window in
      elim (Bool-cases (ltb 0 h.cursor_pos)) [
        | inl moved ↦ rw moved (record {
          in_string = omega arith;
          in_window = omega arith;
          in_history = sound.in_history;
        })
        | inr first ↦ elim (Bool-cases (ltb 0 h.str_pos)) [
          | inl scrolled ↦
              rw (first, scrolled)
                (record { in_string = omega arith; in_window = w; in_history = sound.in_history })
          | inr start ↦ rw (first, start) sound
        ]
      ]

  pub on_right-IsSound : IsSound (on_right h).1
  unfolding on_right
  on_right-IsSound =
      let w = sound.in_window in
      elim (Bool-cases (ltb (place h) (length h.str))) [
        | inl before ↦ elim (Bool-cases (ltb (h.cursor_pos + 1) h.max_size)) [
          | inl room ↦
              rw (before, room)
                (record {
                  in_string = ground arith;
                  in_window = ground arith;
                  in_history = sound.in_history;
                })
          | inr edge ↦
              rw (before, edge)
                (record { in_string = ground arith; in_window = w; in_history = sound.in_history })
        ]
        | inr last ↦ rw last sound
      ]

  pub on_del-IsSound : IsSound (on_del h).1
  unfolding on_del
  on_del-IsSound = elim (Bool-cases (ltb (place h) (length h.str))) [
    | inl before ↦
        let lt : place h < length h.str = ground arith in
        let size = length-erase_at (place h) h.str lt in
        rw before (record {
          in_string = omega arith;
          in_window = sound.in_window;
          in_history = sound.in_history;
        })
    | inr last ↦ rw last sound
  ]
