-- ===== src/StreamRead/Delivery.antt =====
-- A response without a caller's buffer: each byte behind the header is handed to `on_write`.
use mathlib.Core.List.{append_assoc, append-nil}
use mathlib.Core.Option.{Option}
use thesis_share.Base.{
  ℕ, ◌+◌, ◌-◌, ◌≤◌, ◌≡◌, ◌⊎◌, refl, ap, sym, ◌∙◌, inl, inr, true, false, none, some, List, [], ◌∷◌,
  ◌++◌, arith, ◌==◌, length, take, drop, Bool-cases, ==_iff, le→nltb,
}
use thesis_share.HeaderEnd.{Bytes, found}
use thesis_share.HeaderEnd.First.{Occurs, IsFirstEnd}
use thesis_share.Memory.Bytes.{read_bytes, put_bytes, read_bytes-put, length-read_bytes}
use thesis_share.HttpHeader.{Text, HeaderInfo}
use thesis_share.StreamRead.{
  Stream, OutputData, Transport, bytes, ReadLen, len, continue, copy_to_temp, max_http_header_size,
  on_read_to_buffer, copy_header_remainder_to_buffer,
}

abbrev pub joined : List Text → Text
joined [] = []
joined (x ∷ xs) = x ++ joined xs

pub joined-append : (xs : List Text) (x : Text) → joined (xs ++ x ∷ []) ≡ joined xs ++ x
joined-append [] x = append-nil x
joined-append (y ∷ xs) x = ap (◌++◌ y) (joined-append xs x) ∙ sym (append_assoc y (joined xs) x)

-- `lsquic_stream_read` writes no more than the destination holds.
abbrev pub Obeys : Transport → Type 0
Obeys t = (n c : ℕ) (cs : Text) → t n ≡ bytes c cs → length (c ∷ cs) ≤ n

-- The request has no buffer of its own, a function to write to, and wants the body.
pub record IsStreaming (s : Stream) : Type 0 where
  pub output : OutputData
  pub no_buffer : s.data_ref ≡ none
  pub pointed : s.data_pointer ≡ some output
  pub has_on_write : output.on_write ≡ true
  pub wants_body : output.header_only ≡ false

-- All bytes received stand in `temp_buffer`, and no header end is among them.
pub record InHeader (s : Stream) (received : Text) : Type 0 where
  pub no_header : s.header_info_ref ≡ none
  pub used : s.used_temp_buffer ≡ length received
  pub kept : read_bytes s.temp_buffer 0 (length received) ≡ received
  pub open_end : (t : ℕ) → ¬ Occurs s.temp_buffer (length received) t
  pub unwritten : s.written ≡ []

-- A first header end stands at `header_end` in what has been received, as the array `image` showed
-- it after `seen` bytes; what stands behind it has been written.
pub record InBody (s : Stream) (received : Text) : Type 0 where
  pub header : HeaderInfo
  pub has_header : s.header_info_ref ≡ some header
  pub image : Bytes
  pub seen : ℕ
  pub header_end : ℕ
  pub enough : seen ≤ length received
  pub shown : read_bytes image 0 seen ≡ take seen received
  pub first_end : IsFirstEnd image seen (found header_end)
  pub handed_on : joined s.written ≡ drop header_end received

on_read_to_buffer-written :
    (s : Stream) (n : ℕ)
    → IsStreaming s
    → (s' : Stream) × (on_read_to_buffer n s ≡ some (len n, s'))
      × IsStreaming s'
      × (s'.header_info_ref ≡ s.header_info_ref)
      × (s'.written ≡ s.written ++ read_bytes s.temp_buffer 0 n ∷ [])
unfolding on_read_to_buffer
on_read_to_buffer-written s n is =
    let o = is.output in
    let o' : OutputData = record o { used_size = o.used_size + n } in
    (
      record s { data_pointer = some o'; written = s.written ++ read_bytes s.temp_buffer 0 n ∷ [] },
      ground (arith, is.no_buffer, is.pointed, is.has_on_write),
      record {
        output = o';
        no_buffer = is.no_buffer;
        pointed = refl;
        has_on_write = is.has_on_write;
        wants_body = is.wants_body;
      },
      refl,
      refl,
    )

pub continue-some :
    {A B : Type 0} {x : Option (A × Stream)} {a : A} {s : Stream} {r : Option (B × Stream)}
    (k : A → Stream → Option (B × Stream))
    → x ≡ some (a, s)
    → k a s ≡ r
    → continue x k ≡ r
continue-some k e run = ap (λ x. continue x k) e ∙ run

pub copy_to_temp-some :
    (s : Stream) (at_byte : ℕ) (chunk : Text)
    → at_byte + length chunk ≤ max_http_header_size
    → copy_to_temp at_byte chunk s
      ≡ some (tt, record s { temp_buffer = put_bytes s.temp_buffer at_byte chunk })
unfolding copy_to_temp
copy_to_temp-some s at_byte chunk fits =
    rw (le→nltb max_http_header_size (at_byte + length chunk) fits) refl

-- Bytes put at the front of `temp_buffer`, by a read or a move, are written.
pub chunk-written :
    (s : Stream) (chunk : Text) (n : ℕ)
    → length chunk ≡ n
    → IsStreaming s
    → n ≤ max_http_header_size
    → (s' : Stream) × (continue (copy_to_temp 0 chunk s) (λ _. on_read_to_buffer n)
        ≡ some (len n, s'))
      × IsStreaming s'
      × (s'.header_info_ref ≡ s.header_info_ref)
      × (joined s'.written ≡ joined s.written ++ chunk)
chunk-written s chunk n sized is fits =
    let (s', run, is', kept, wrote) = on_read_to_buffer-written s1 n moved in
    (
      s',
      continue-some (λ _. on_read_to_buffer n) (copy_to_temp-some s 0 chunk (omega arith)) run,
      is',
      kept,
      ap joined wrote
          ∙ ap (λ k. joined (s.written ++ read_bytes s1.temp_buffer 0 k ∷ [])) (sym sized)
          ∙ ap (λ c. joined (s.written ++ c ∷ [])) (read_bytes-put s.temp_buffer 0 chunk)
          ∙ joined-append s.written chunk,
    )
  where
    s1 : Stream
    s1 = record s { temp_buffer = put_bytes s.temp_buffer 0 chunk }

    moved : IsStreaming s1
    moved = record {
      output = is.output;
      no_buffer = is.no_buffer;
      pointed = is.pointed;
      has_on_write = is.has_on_write;
      wants_body = is.wants_body;
    }

-- The bytes from `start` on are moved to the front of `temp_buffer` and written.
pub remainder-written :
    (s : Stream) (start : ℕ)
    → IsStreaming s
    → s.used_temp_buffer ≤ max_http_header_size
    → (r : ReadLen) × (s' : Stream) × (copy_header_remainder_to_buffer start s ≡ some (r, s'))
      × IsStreaming s'
      × (s'.header_info_ref ≡ s.header_info_ref)
      × (joined s'.written
          ≡ joined s.written ++ read_bytes s.temp_buffer start (s.used_temp_buffer - start))
unfolding copy_header_remainder_to_buffer
remainder-written s start is fits = cases (Bool-cases (added == 0))
  where
    added : ℕ
    added = s.used_temp_buffer - start

    chunk : Text
    chunk = read_bytes s.temp_buffer start added

    sized : length chunk ≡ added
    sized = length-read_bytes s.temp_buffer start added

    none_left :
        (n : ℕ)
        → (n == 0) ≡ true
        → joined s.written ≡ joined s.written ++ read_bytes s.temp_buffer start n
    none_left n e = rw ((==_iff n 0).0 e) (sym (append-nil (joined s.written)))

    cases :
        ((added == 0) ≡ true) ⊎ ((added == 0) ≡ false)
        → (r : ReadLen) × (s' : Stream) × (copy_header_remainder_to_buffer start s ≡ some (r, s'))
          × IsStreaming s'
          × (s'.header_info_ref ≡ s.header_info_ref)
          × (joined s'.written ≡ joined s.written ++ chunk)
    cases (inl nothing) = (len 0, s, rw nothing refl, is, refl, none_left added nothing)
    cases (inr more) =
        let (s', run, is', kept, wrote) = chunk-written s chunk added sized is (omega arith) in
        (len added, s', rw more (rw is.no_buffer run), is', kept, wrote)
