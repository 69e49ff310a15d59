-- ===== src/Console/InputHandler/Tests.antt =====
-- The input line on concrete inputs.
use securepath.Base.{◌≡◌, refl, true, [], ◌∷◌, none, arith, length}
use securepath.Console.InputHandler.{InputHandler, up_arrow, place, process, commit, input_handler}
use securepath.Console.InputHandler.Cursor.{IsSound}
use securepath.Console.InputHandler.Process.{process-IsSound, commit-IsSound}

-- Three characters, of which the window shows two, and a line in the history.
abbrev typed_three : InputHandler
typed_three = record {
  max_size = 3;
  str = 97 ∷ 98 ∷ 99 ∷ [];
  str_pos = 1;
  cursor_pos = 2;
  insert_mode = true;
  history = (100 ∷ []) ∷ [];
  history_pos = none;
  temp_str = [];
}

typed_three-IsSound : IsSound typed_three
typed_three-IsSound = record { in_string = omega arith; in_window = omega arith; in_history = tt }

process-IsSound_example :
    IsSound (process (λ c. true) typed_three (record { ch = none; key = up_arrow })).1
process-IsSound_example =
    process-IsSound (λ c. true) typed_three (record { ch = none; key = up_arrow })
      typed_three-IsSound

commit-IsSound_example : IsSound (commit typed_three) × (length (commit typed_three).history ≡ 2)
commit-IsSound_example = commit-IsSound typed_three typed_three-IsSound

-- A text shorter than the window starts with the cursor beyond the string.
input_handler_starts : place (input_handler 10 (97 ∷ [])) ≡ 2
unfolding input_handler
input_handler_starts = refl
