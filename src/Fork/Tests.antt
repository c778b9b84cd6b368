-- ===== src/Fork/Tests.antt =====
-- Commands with ticks, backslashes and spaces, and a last word that is empty.
use lunchbox.Prelude.{◌≡◌, refl, List, [], ◌∷◌, ◌++◌, none, some, bind}
use lunchbox.Log.{Text}
use lunchbox.Fork.{
  build_command_line, read_all, read, keep, push, push_last, write, finish, new_reader,
}
use lunchbox.Fork.Texts.{words_of}
use lunchbox.Fork.Bounds.{build_command_line-words_of}
use lunchbox.Fork.Words.{render, last_word, build_command_line-render}

abbrev some_words : List Text
some_words = (b'a' ∷ b' ' ∷ b'"' ∷ []) ∷ [] ∷ []

build_command_line-render_example :
    build_command_line (render some_words (b'\\' ∷ []))
    ≡ some (some_words ++ last_word (b'\\' ∷ []))
build_command_line-render_example =
    build_command_line-render some_words (b'\\' ∷ []) ((refl, (refl, (refl, tt))), (tt, tt))
      (refl, tt)

-- Two spaces make an empty word, and a last backslash takes the 0 behind the command.
abbrev spaces : Text
spaces = b'a' ∷ b' ' ∷ b' ' ∷ b'b' ∷ b'\\' ∷ []

build_command_line-words_of_example : build_command_line spaces ≡ some (words_of spaces)
build_command_line-words_of_example = build_command_line-words_of spaces

spaces_run : build_command_line spaces ≡ some ((b'a' ∷ []) ∷ [] ∷ (b'b' ∷ []) ∷ [])
unfolding build_command_line read_all read keep push push_last write finish
spaces_run = refl

-- A buffer of one byte less is too small.
too_small : bind (read_all (b'a' ∷ b'b' ∷ []) (new_reader 1)) finish ≡ none
unfolding read_all read keep push push_last write finish
too_small = refl
