-- ===== src/Console/InputHandler.antt =====
-- securepath/console/input_handler.cpp and input_handler.hpp. A character is its number; `printable`
-- is std::iswprint.
pub mod Cursor
pub mod Process
mod Tests
use securepath.Base.{
  ℕ, zero, suc, ◌+◌, ◌-◌, ◌≤◌, ◌<◌, min, Bool, true, false, not, List, [], ◌∷◌, ◌++◌, Option, none,
  some, length, take, drop, get_or, ltb, leb, ◌==◌, if◌then◌else◌,
}

-- `other_key` is any key that `process` does not ask for: none, esc, tab, page_up, page_down, f1 to f12.
pub data InputKey : Type 0 where
  backspace left_arrow right_arrow up_arrow down_arrow del home end insert other_key : InputKey

pub record Input : Type 0 where
  pub ch : Option ℕ
  pub key : InputKey

pub record InputHandler : Type 0 where
  pub max_size : ℕ
  pub str : List ℕ
  pub str_pos : ℕ
  pub cursor_pos : ℕ
  pub insert_mode : Bool
  pub history : List (List ℕ)
  pub history_pos : Option ℕ
  pub temp_str : List ℕ

-- The change to be drawn: from `pos` on, `str`.
pub record VisibleChange : Type 0 where
  pub pos : ℕ
  pub str : List ℕ
  pub cursor_pos : ℕ

abbrev no_change : VisibleChange
no_change = record { pos = 0; str = []; cursor_pos = 0 }

-- The constructor.
unfoldable pub input_handler : ℕ → List ℕ → InputHandler
input_handler max_size text = record {
  max_size = max_size;
  str = text;
  str_pos = if leb max_size (length text) then (length text + 1) - max_size else length text;
  cursor_pos = if leb max_size (length text) then max_size - 1 else length text;
  insert_mode = true;
  history = [];
  history_pos = none;
  temp_str = [];
}

unfoldable pub visible_string : InputHandler → List ℕ
visible_string h = take (min h.max_size (length h.str - h.str_pos)) (drop h.str_pos h.str)

abbrev redrawn : InputHandler → VisibleChange × InputHandler
redrawn h = (record { pos = 0; str = visible_string h; cursor_pos = h.cursor_pos }, h)

abbrev cursor_moved : InputHandler → VisibleChange × InputHandler
cursor_moved h = (record { pos = 0; str = []; cursor_pos = h.cursor_pos }, h)

-- The window at the end of the string.
unfoldable pub at_end : InputHandler → InputHandler
at_end h = record h {
  str_pos = if leb h.max_size (length h.str) then (length h.str + 1) - h.max_size else 0;
  cursor_pos = if leb h.max_size (length h.str) then h.max_size - 1 else length h.str;
}

unfoldable pub set_string : InputHandler → List ℕ → VisibleChange × InputHandler
unfolding at_end
set_string h s = redrawn (at_end (record h { str = s }))

-- `erase` and `insert` of one character.
abbrev pub erase_at : ℕ → List ℕ → List ℕ
erase_at n s = take n s ++ drop (suc n) s

abbrev pub insert_at : ℕ → ℕ → List ℕ → List ℕ
insert_at n c s = take n s ++ (c ∷ drop n s)

abbrev pub place : InputHandler → ℕ
place h = h.str_pos + h.cursor_pos

-- The string with the character at the cursor: at the end, inserted, or in place of another.
unfoldable pub with_char : InputHandler → ℕ → List ℕ
with_char h c =
    if leb (length h.str) (place h)
    then h.str ++ c ∷ []
    else if h.insert_mode
    then insert_at (place h) c h.str
    else take (place h) h.str ++ (c ∷ drop (suc (place h)) h.str)

unfoldable pub put_char : InputHandler → ℕ → VisibleChange × InputHandler
unfolding with_char
put_char h c =
    let h' = record h { str = with_char h c } in
    if leb h.max_size (h.cursor_pos + 1)
    then redrawn (record h' { str_pos = h.str_pos + 1; cursor_pos = h.max_size - 1 })
    else (
      record {
        pos = h.cursor_pos;
        str = take 1 (drop (place h) (with_char h c));
        cursor_pos = h.cursor_pos + 1;
      },
      record h' { cursor_pos = h.cursor_pos + 1 },
    )

unfoldable pub on_backspace : InputHandler → VisibleChange × InputHandler
on_backspace h =
    let back = record h {
      cursor_pos = h.cursor_pos - 1;
      str = erase_at (h.str_pos + (h.cursor_pos - 1)) h.str;
    } in
    let scrolled = record h { str_pos = h.str_pos - 1; str = erase_at (h.str_pos - 1) h.str } in
    if ltb 0 h.cursor_pos
    then (
      record {
        pos = back.cursor_pos;
        str = drop back.cursor_pos (visible_string back);
        cursor_pos = back.cursor_pos;
      },
      back,
    )
    else if ltb 0 h.str_pos
    then redrawn scrolled
    else (no_change, h)

unfoldable pub on_left : InputHandler → VisibleChange × InputHandler
on_left h =
    if ltb 0 h.cursor_pos
    then cursor_moved (record h { cursor_pos = h.cursor_pos - 1 })
    else if ltb 0 h.str_pos
    then redrawn (record h { str_pos = h.str_pos - 1 })
    else (no_change, h)

-- The second test of `place` repeats the first.
unfoldable pub on_right : InputHandler → VisibleChange × InputHandler
on_right h =
    if ltb (place h) (length h.str)
    then if ltb (h.cursor_pos + 1) h.max_size
      then cursor_moved (record h { cursor_pos = h.cursor_pos + 1 })
      else redrawn (record h { str_pos = h.str_pos + 1 })
    else (no_change, h)

abbrev recall : InputHandler → ℕ → VisibleChange × InputHandler
recall h i = set_string (record h { history_pos = some i }) (get_or h.history i [])

up_from : InputHandler → Option ℕ → VisibleChange × InputHandler
unfolding set_string
up_from h (some zero) = (no_change, h)
up_from h (some (suc i)) = recall h i
up_from h none =
    if length h.history == 0
    then (no_change, h)
    else recall (record h { temp_str = h.str }) (length h.history - 1)

down_from : InputHandler → Option ℕ → VisibleChange × InputHandler
unfolding set_string
down_from h none = (no_change, h)
down_from h (some i) =
    let (change, back) = set_string (record h { history_pos = none }) h.temp_str in
    if leb (length h.history) (i + 1)
    then (change, record back { temp_str = [] })
    else recall h (i + 1)

unfoldable pub on_del : InputHandler → VisibleChange × InputHandler
on_del h =
    if ltb (place h) (length h.str)
    then (no_change, record h { str = erase_at (place h) h.str })
    else (no_change, h)

unfoldable pub on_key : InputHandler → InputKey → VisibleChange × InputHandler
unfolding on_backspace on_left on_right up_from down_from on_del at_end
on_key h backspace = on_backspace h
on_key h left_arrow = on_left h
on_key h right_arrow = on_right h
on_key h up_arrow = up_from h h.history_pos
on_key h down_arrow = down_from h h.history_pos
on_key h del = on_del h
on_key h home = (no_change, record h { str_pos = 0; cursor_pos = 0 })
on_key h end = (no_change, at_end h)
on_key h insert = (no_change, record h { insert_mode = not h.insert_mode })
on_key h other_key = (no_change, h)

typed : (ℕ → Bool) → InputHandler → Option ℕ → InputKey → VisibleChange × InputHandler
unfolding put_char on_key
typed printable h none key = on_key h key
typed printable h (some c) key = if printable c then put_char h c else on_key h key

unfoldable pub process : (ℕ → Bool) → InputHandler → Input → VisibleChange × InputHandler
unfolding typed
process printable h input = typed printable h input.ch input.key

unfoldable pub clear : InputHandler → InputHandler
clear h = record h { str = []; temp_str = []; str_pos = 0; cursor_pos = 0 }

unfoldable pub commit : InputHandler → InputHandler
unfolding clear
commit h = clear (record h { history = h.history ++ h.str ∷ [] })
