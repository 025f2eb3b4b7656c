-- ===== src/Deserializer/EventType.antt =====
-- `find_event_type` against an independent description of the name that it reads.
use gateway_proxy.Prelude.{
  ℕ, ◌+◌, ◌-◌, ◌≡◌, ◌↔◌, refl, sym, ap, subst, ◌∙◌, Bool, true, not, some, [], ◌∷◌, ◌++◌, arith,
  inl, inr, append_assoc, Bool-cases, ◌==◌, ==_iff, >>=-elim, get_elem?,
}
use gateway_proxy.Text.{
  Text, len_utf8, byte_len, as_bytes, starts_with, is_whitespace, find, at_char, get_from,
  get_range,
}
use gateway_proxy.Text.Split.{
  Misses, find-append, find-split, starts_with-append, starts_with-split, get_from-append,
  byte_len-append, get_range-append,
}
use gateway_proxy.Text.Bytes.{byte-quote, quote-byte}
use gateway_proxy.Deserializer.{EventTypeInfo, event_type_key, find_event_type}

abbrev is_quote : ℕ → Bool
is_quote c = c == b'"'

abbrev is_visible : ℕ → Bool
is_visible c = not (is_whitespace c)

-- In `input` the first occurrence of the key is followed by blanks and a string; the range is that
-- of the text between its quotes.
pub record EventTypeAt (input : Text) (info : EventTypeInfo) : Type 0 where
  pub before : Text
  pub blanks : Text
  pub rest : Text
  pub splits :
      input ≡ before ++ (event_type_key ++ (blanks ++ (b'"' ∷ (info.name ++ (b'"' ∷ rest)))))
  pub first :
      Misses
        (starts_with event_type_key)
        before
        (event_type_key ++ (blanks ++ (b'"' ∷ (info.name ++ (b'"' ∷ rest)))))
  pub all_blank : Misses (at_char is_visible) blanks (b'"' ∷ (info.name ++ (b'"' ∷ rest)))
  pub unquoted : Misses (at_char is_quote) info.name (b'"' ∷ rest)
  pub start_is : info.range.start ≡ byte_len before + 4 + byte_len blanks + 1
  pub end_is : info.range.end ≡ info.range.start + byte_len info.name

byte_len-key : byte_len event_type_key ≡ 4
unfolding byte_len len_utf8
byte_len-key = refl

byte_len-quote : byte_len (b'"' ∷ []) ≡ 1
unfolding byte_len len_utf8
byte_len-quote = refl

quote_visible : is_visible b'"' ≡ true
unfolding is_whitespace
quote_visible = refl

pub find_event_type_complete :
    {input : Text} {info : EventTypeInfo}
    → EventTypeAt input info
    → find_event_type input ≡ some info
unfolding find_event_type
find_event_type_complete {input} {info} a =
    let value = info.name ++ (b'"' ∷ a.rest) in
    let front = a.before ++ event_type_key in
    ground (
      arith,
      byte_len-key,
      byte_len-quote,
      quote_visible,
      find-append (starts_with event_type_key) a.before
          (event_type_key ++ (a.blanks ++ (b'"' ∷ value))) a.first,
      starts_with-append event_type_key (a.blanks ++ (b'"' ∷ value)),
      append_assoc a.before event_type_key (a.blanks ++ (b'"' ∷ value)),
      byte_len-append a.before event_type_key,
      get_from-append front (a.blanks ++ (b'"' ∷ value)),
      find-append (at_char is_visible) a.blanks (b'"' ∷ value) a.all_blank,
      quote-byte (front ++ a.blanks) value,
      append_assoc front a.blanks (b'"' ∷ value),
      byte_len-append front a.blanks,
      get_from-append ((front ++ a.blanks) ++ (b'"' ∷ [])) value,
      append_assoc (front ++ a.blanks) (b'"' ∷ []) value,
      byte_len-append (front ++ a.blanks) (b'"' ∷ []),
      find-append (at_char is_quote) info.name (b'"' ∷ a.rest) a.unquoted,
      get_range-append ((front ++ a.blanks) ++ (b'"' ∷ [])) info.name (b'"' ∷ a.rest),
    )

quote-split : (q : Text) → at_char is_quote q ≡ true → (r : Text) × (q ≡ b'"' ∷ r)
quote-split [] h = absurd cc
quote-split (c ∷ r) h = (r, ap (λ d. d ∷ r) ((==_iff c b'"').0 h))

-- The parts of a successful `find_event_type` behind the key, put together again.
assemble_value :
    (input : Text) (info : EventTypeInfo) (before blanks visible value : Text) (b to start : ℕ)
    → input ≡ before ++ (event_type_key ++ (blanks ++ visible))
    → Misses (starts_with event_type_key) before (event_type_key ++ (blanks ++ visible))
    → at_char is_visible visible ≡ true
    → Misses (at_char is_visible) blanks visible
    → start ≡ byte_len before + 4 + byte_len blanks + 1
    → get_elem? (as_bytes input) (start - 1) ≡ some b
    → b == b'"' ≡ true
    → get_from input start ≡ some value
    → find (at_char is_quote) value ≡ some to
    → get_range input start (start + to) ≡ some info.name
    → info.range.start ≡ start
    → info.range.end ≡ start + to
    → EventTypeAt input info
assemble_value input info before blanks [] value b to start here first shown all_blank start_is byte
      quote opened closed cut rs re =
    absurd cc
assemble_value input info before blanks (c ∷ q) value b to start here first shown all_blank start_is
      byte quote opened closed cut rs re =
    let front = (before ++ event_type_key) ++ blanks in
    let input_is : input ≡ front ++ (c ∷ q) = ground (
      arith,
      append_assoc before event_type_key (blanks ++ (c ∷ q)),
      append_assoc (before ++ event_type_key) blanks (c ∷ q),
    ) in
    let front_len : byte_len front ≡ start - 1 = omega (
      arith,
      byte_len-key,
      byte_len-append before event_type_key,
      byte_len-append (before ++ event_type_key) blanks,
    ) in
    let at_front : get_elem? (as_bytes (front ++ (c ∷ q))) (byte_len front) ≡ some b =
      rw (← input_is, front_len) byte in
    let is_open : c ≡ b'"' = (==_iff c b'"').0 (sym (byte-quote front c q at_front) ∙ quote) in
    let one_byte : byte_len (c ∷ []) ≡ 1 = rw is_open byte_len-quote in
    let value_is : q ≡ value = ground (
      arith,
      get_from-append (front ++ (c ∷ [])) q,
      append_assoc front (c ∷ []) q,
      byte_len-append front (c ∷ []),
    ) in
    let (name, closing, e, l, hit, unquoted) = find-split (at_char is_quote) value closed in
    let name_is : info.name ≡ name = ground (
      arith,
      get_range-append (front ++ (c ∷ [])) name closing,
      append_assoc front (c ∷ []) (name ++ closing),
      byte_len-append front (c ∷ []),
    ) in
    let (rest, closing_is) = quote-split closing hit in
    let tail_is : q ≡ info.name ++ (b'"' ∷ rest) =
      value_is ∙ e ∙ ap (◌++◌ name) closing_is ∙ ap (λ n. n ++ (b'"' ∷ rest)) (sym name_is) in
    let visible_is : c ∷ q ≡ b'"' ∷ (info.name ++ (b'"' ∷ rest)) = ground arith in
    record {
      before = before;
      blanks = blanks;
      rest = rest;
      splits = rw visible_is at here;
      first = rw visible_is at first;
      all_blank = rw visible_is at all_blank;
      unquoted = rw (name_is, ← closing_is) unquoted;
      start_is = ground arith;
      end_is = ground arith;
    }

-- The parts of a successful `find_event_type`, put together again.
assemble :
    (input : Text) (info : EventTypeInfo) (at_key blanks b to : ℕ) (tail value : Text)
    → find (starts_with event_type_key) input ≡ some at_key
    → get_from input (at_key + 4) ≡ some tail
    → find (at_char is_visible) tail ≡ some blanks
    → get_elem? (as_bytes input) (blanks + (at_key + 4) + 1 - 1) ≡ some b
    → b == b'"' ≡ true
    → get_from input (blanks + (at_key + 4) + 1) ≡ some value
    → find (at_char is_quote) value ≡ some to
    → get_range input (blanks + (at_key + 4) + 1) (blanks + (at_key + 4) + 1 + to) ≡ some info.name
    → info.range.start ≡ blanks + (at_key + 4) + 1
    → info.range.end ≡ blanks + (at_key + 4) + 1 + to
    → EventTypeAt input info
assemble input info at_key skipped b to tail value found behind seen byte quote opened closed cut rs
      re =
    let (before, at, e, l, hit, first) = find-split (starts_with event_type_key) input found in
    let (behind_key, e') = starts_with-split event_type_key at hit in
    let here : input ≡ before ++ (event_type_key ++ behind_key) = e ∙ ap (◌++◌ before) e' in
    let tail_is : behind_key ≡ tail = ground (
      arith,
      byte_len-key,
      get_from-append (before ++ event_type_key) behind_key,
      append_assoc before event_type_key behind_key,
      byte_len-append before event_type_key,
    ) in
    let (blanks, visible, e'', l', shown, all_blank) = find-split (at_char is_visible) tail seen in
    assemble_value input info before blanks visible value b to (skipped + (at_key + 4) + 1)
      (here ∙ ap (λ t. before ++ (event_type_key ++ t)) (tail_is ∙ e''))
      (subst (Misses (starts_with event_type_key) before)
        (e' ∙ ap (◌++◌ event_type_key) (tail_is ∙ e'')) first)
      shown all_blank (ground arith) byte quote opened closed cut rs re

pub find_event_type_sound :
    (input : Text) {info : EventTypeInfo}
    → find_event_type input ≡ some info
    → EventTypeAt input info
unfolding find_event_type
find_event_type_sound input {info} h =
    >>=-elim (find (starts_with event_type_key) input) _ h λ at_key e1 h1.
      >>=-elim (get_from input (at_key + 4)) _ h1 λ tail e2 h2.
        >>=-elim (find (at_char is_visible) tail) _ h2 λ blanks e3 h3.
          >>=-elim (get_elem? (as_bytes input) (blanks + (at_key + 4) + 1 - 1)) _ h3 λ b e4 h4.
            elim (Bool-cases (b == b'"')) [
              | inr other ↦ absurd (ground arith)
              | inl quote ↦
                  >>=-elim (get_from input (blanks + (at_key + 4) + 1)) _ (rw quote at h4)
                    λ value e5 h5. >>=-elim (find (at_char is_quote) value) _ h5 λ to e6 h6.
                      >>=-elim
                        (get_range input (blanks + (at_key + 4) + 1)
                          (blanks + (at_key + 4) + 1 + to))
                        _ h6
                        λ name e7 h7.
                          assemble input info at_key blanks b to tail value e1 e2 e3 e4 quote e5 e6
                            (ground arith) (ground arith) (ground arith)
            ]

-- `find_event_type` returns a name with a range exactly if they are those of the string that follows
-- the first occurrence of the key and blanks.
pub find_event_type_iff :
    (input : Text) (info : EventTypeInfo)
    → (find_event_type input ≡ some info) ↔ EventTypeAt input info
find_event_type_iff input info = (find_event_type_sound input, find_event_type_complete)
