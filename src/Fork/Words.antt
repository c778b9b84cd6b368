-- ===== src/Fork/Words.antt =====
-- Words that are quoted and escaped are the words of the command.
use lunchbox.Prelude.{
  some, ◌≡◌, refl, sym, ap, ◌∙◌, Bool, true, false, List, [], ◌∷◌, ◌++◌, append-nil, append_assoc,
  ◌==◌,
}
use lunchbox.Log.{Text}
use lunchbox.Fork.{c_string, build_command_line}
use lunchbox.Fork.Texts.{Reading, read_text, read_texts, finish_text, words_of}
use lunchbox.Fork.Bounds.{build_command_line-words_of}

-- A word in ticks, with a backslash before each of its bytes.
abbrev pub escape : Text → Text → Text
escape [] rest = b'"' ∷ rest
escape (c ∷ cs) rest = b'\\' ∷ c ∷ escape cs rest

abbrev pub quote : Text → Text → Text
quote word rest = b'"' ∷ escape word rest

-- The words with a space between them.
abbrev pub render : List Text → Text → Text
render [] last = quote last []
render (word ∷ words) last = quote word (b' ' ∷ render words last)

-- No byte is 0.
abbrev pub IsText : Text → Type 0
IsText [] = Unit
IsText (c ∷ cs) = ((c == 0) ≡ false) × IsText cs

abbrev pub AreTexts : List Text → Type 0
AreTexts [] = Unit
AreTexts (word ∷ words) = IsText word × AreTexts words

c_string_same : (word : Text) → IsText word → c_string word ≡ word
c_string_same [] t = refl
c_string_same (c ∷ cs) t = rw (t.0, c_string_same cs t.1) refl

abbrev after : Text → List Text → Bool → Reading
after buffer line ticks = record {
  in_ticks = ticks;
  escaped = false;
  word = buffer;
  command_line = line;
}

read_escape :
    (word rest buffer : Text) (line : List Text)
    → read_texts (escape word rest) (after buffer line true)
      ≡ read_texts rest (after (buffer ++ word) line false)
unfolding read_texts read_text
read_escape [] rest buffer line =
    ap (λ b. read_texts rest (after b line false)) (sym (append-nil buffer))
read_escape (c ∷ cs) rest buffer line =
    read_escape cs rest (buffer ++ (c ∷ [])) line
    ∙ ap (λ b. read_texts rest (after b line false)) (append_assoc buffer (c ∷ []) cs)

-- The last word is one of the command's if it has a byte.
abbrev pub last_word : Text → List Text
last_word [] = []
last_word (c ∷ cs) = (c ∷ cs) ∷ []

last_read :
    (last : Text) (line : List Text)
    → IsText last
    → finish_text (after last line false) ≡ line ++ last_word last
unfolding finish_text
last_read [] line t = sym (append-nil line)
last_read (c ∷ cs) line t = ap (λ w. line ++ (w ∷ [])) (c_string_same (c ∷ cs) t)

read_words :
    (words : List Text) (last : Text) (line : List Text)
    → AreTexts words
    → IsText last
    → finish_text (read_texts (render words last) (after [] line false))
      ≡ line ++ (words ++ last_word last)
unfolding read_texts read_text
read_words [] last line ts t = ap finish_text (read_escape last [] [] line) ∙ last_read last line t
read_words (word ∷ words) last line ts t =
    ap finish_text (read_escape word (b' ' ∷ render words last) [] line)
    ∙ ap (λ w. finish_text (read_texts (render words last) (after [] (line ++ (w ∷ [])) false)))
        (c_string_same word ts.0)
    ∙ read_words words last (line ++ (word ∷ [])) ts.1 t
    ∙ append_assoc line (word ∷ []) (words ++ last_word last)

-- Words without the byte 0, each in ticks and with a backslash before each byte, with a space between
-- them, whatever bytes they have: the command is cut into these words, in their order. Only the last
-- word is lost if it is empty.
pub build_command_line-render :
    (words : List Text) (last : Text)
    → AreTexts words
    → IsText last
    → build_command_line (render words last) ≡ some (words ++ last_word last)
unfolding words_of
build_command_line-render words last ts t =
    build_command_line-words_of (render words last) ∙ ap some (read_words words last [] ts t)
