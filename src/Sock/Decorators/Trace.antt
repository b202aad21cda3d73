-- ===== src/Sock/Decorators/Trace.antt =====
-- src/sock/decorators.rs: what is printed of a message that is read through a decorated socket.
use polysock.Base.{
  Bool, ℕ, suc, ◌≤◌, ◌^◌, ◌<◌, ◌≡◌, refl, ap, ap₂, sym, ◌∙◌, if◌then◌else◌, List, [], ◌∷◌, ◌++◌,
  append-nil, append_assoc, arith, ltb, inl, inr, Bool-cases, le→ltb, lt→ltb, length, write_at,
  take-write_at, length-append, drop,
}
use polysock.Base.{
  ok, returns, Text, Event, println, eprintln, sleep_micros, shutdown_both, lit, num, debug,
  hex_dump,
}
use polysock.Sock.{ComplexSock}
use polysock.Sock.Wrapper.{u8, read_all_loop}
use polysock.Sock.Wrapper.Delivers.{Delivers, last, more, read_all_loop-Delivers}
use polysock.Sock.Decorators.{
  Decorator, Prints, stdout_of, trace_raw, trace_canonical, decorator, decorator_read, received,
  shown, slice,
}

-- The bytes that the lines of a log show.
abbrev pub bytes_of : Text → List ℕ
bytes_of [] = []
bytes_of (lit s ∷ t) = bytes_of t
bytes_of (num n ∷ t) = bytes_of t
bytes_of (debug bs ∷ t) = bs ++ bytes_of t
bytes_of (hex_dump bs ∷ t) = bs ++ bytes_of t

abbrev pub traced : List Event → List ℕ
traced [] = []
traced (println t ∷ l) = bytes_of t ++ traced l
traced (eprintln t ∷ l) = traced l
traced (sleep_micros n ∷ l) = traced l
traced (shutdown_both addr ∷ l) = traced l

traced-append : (l l' : List Event) → traced (l ++ l') ≡ traced l ++ traced l'
traced-append [] l' = refl
traced-append (println t ∷ l) l' =
    ap (◌++◌ (bytes_of t)) (traced-append l l')
    ∙ sym (append_assoc (bytes_of t) (traced l) (traced l'))
traced-append (eprintln t ∷ l) l' = traced-append l l'
traced-append (sleep_micros n ∷ l) l' = traced-append l l'
traced-append (shutdown_both addr ∷ l) l' = traced-append l l'

append-empty : (xs ys : List ℕ) → xs ++ ys ≡ [] → (xs ≡ []) × (ys ≡ [])
append-empty [] ys e = (refl, e)
append-empty (x ∷ xs) ys e = absurd (omega (arith, ap length e))

-- The decorators that print the bytes, and the line of a message.
pub data PrintsBytes : Decorator → Type 0 where
  raw : {stdout : Text → Bool} → PrintsBytes (trace_raw stdout)
  canonical : {stdout : Text → Bool} → PrintsBytes (trace_canonical stdout)

abbrev line : {d : Decorator} → PrintsBytes d → List ℕ → Text
line raw bs = lit "Data is received: " ∷ debug bs ∷ []
line canonical bs = lit "Received data (canonical format):\n " ∷ hex_dump bs ∷ []

abbrev notes : {d : Decorator} → PrintsBytes d → List ℕ → List Event
notes p bs = if ltb 0 (length bs) then println (line p bs) ∷ [] else []

traced-notes : {d : Decorator} (p : PrintsBytes d) (bs : List ℕ) → traced (notes p bs) ≡ bs
traced-notes raw [] = refl
traced-notes raw (b ∷ bs) =
    rw (lt→ltb 0 (suc (length bs)) (omega arith))
      (append-nil ((b ∷ bs) ++ []) ∙ append-nil (b ∷ bs))
traced-notes canonical [] = refl
traced-notes canonical (b ∷ bs) =
    rw (lt→ltb 0 (suc (length bs)) (omega arith))
      (append-nil ((b ∷ bs) ++ []) ∙ append-nil (b ∷ bs))

slice_whole :
    (buffer bs : List ℕ)
    → length bs ≤ length (write_at buffer 0 bs)
    → slice (write_at buffer 0 bs) (length bs) ≡ ok bs
unfolding slice
slice_whole buffer bs h =
    rw (le→ltb (length (write_at buffer 0 bs)) (length bs) h)
      (ap ok (take-write_at buffer bs (length bs) refl))

received_lem :
    {d : Decorator} (p : PrintsBytes d) (descr : Text) (buffer bs : List ℕ)
    → received d descr (write_at buffer 0 bs) (length bs) ≡ ok (line p bs)
unfolding received
received_lem raw descr buffer bs =
    rw (slice_whole buffer bs (omega (arith, length-append bs (drop (length bs) buffer)))) refl
received_lem canonical descr buffer bs =
    rw (slice_whole buffer bs (omega (arith, length-append bs (drop (length bs) buffer)))) refl

module _ {d : Decorator} (p : PrintsBytes d) (prints : Prints (stdout_of d)) (K : ComplexSock) where
  decorator_read-answers :
      (buffer bs : List ℕ) (sz : ℕ) {s s' : K.State} {l : List Event}
      → K.read buffer sz s ≡ returns (length bs, write_at buffer 0 bs) s' l
      → decorator_read d K buffer sz s
        ≡ returns (length bs, write_at buffer 0 bs) s' (l ++ notes p bs)
  unfolding decorator_read shown
  decorator_read-answers buffer bs sz {s'} {l} e = elim (Bool-cases (ltb 0 (length bs))) [
    | inl some ↦
        rw
          (
            e,
            decorator_read,
            some,
            e,
            received_lem p (K.get_description s') buffer bs,
            shown,
            prints (line p bs),
          )
          refl
    | inr none ↦
        rw (e, decorator_read, none, e)
          (ap (returns (length bs, write_at buffer 0 bs) s') (sym (append-nil l)))
  ]

  -- What is delivered to a reader of the decorated socket, and what its log shows.
  record Traced (c : ℕ) (s end : K.State) (bs : List ℕ) (n : ℕ) (log : List Event) : Type 0 where
    shown_log : List Event
    delivers : Delivers (decorator d K) c end s bs n shown_log
    shows : (traced log ≡ []) → traced shown_log ≡ bs

  decorator-Traced :
      (c : ℕ) {end s : K.State} {bs : List ℕ} {n : ℕ} {log : List Event}
      → Delivers K c end s bs n log
      → Traced c s end bs n log
  decorator-Traced c {bs} (last {l} lt answers) = record {
    shown_log = l ++ notes p bs;
    delivers = last lt (λ buffer full. decorator_read-answers buffer bs c (answers buffer full));
    shows = λ quiet. traced-append l (notes p bs) ∙ ap₂ ◌++◌ quiet (traced-notes p bs);
  }
  decorator-Traced c {bs} (more chunk rest l l' full answers others whole logs count) =
      let r = decorator-Traced c others in
      record {
        shown_log = (l ++ notes p chunk) ++ r.shown_log;
        delivers =
            more chunk rest (l ++ notes p chunk) r.shown_log full
              (λ buffer e. decorator_read-answers buffer chunk c (answers buffer e)) r.delivers
              whole refl count;
        shows = λ quiet.
            let (q, q') =
              append-empty (traced l) (traced l')
                (sym (traced-append l l') ∙ ap traced (sym logs) ∙ quiet) in
            traced-append (l ++ notes p chunk) r.shown_log
            ∙ ap₂ ◌++◌ (traced-append l (notes p chunk) ∙ ap₂ ◌++◌ q (traced-notes p chunk))
                (r.shows q')
            ∙ sym whole;
      }

-- The raw and the canonical decorator print exactly what is read, while the standard output takes
-- every line: where a socket that itself prints
-- no bytes delivers a message in chunks of at least one byte, the loop of `read_all` over the
-- decorated socket, with fuel for each read, returns the message, and the bytes in the printed
-- lines are those of the message, in order.
pub read_all_loop-traced :
    {d : Decorator} (p : PrintsBytes d) (K : ComplexSock) (prints : Prints (stdout_of d))
    (c fuel : ℕ) (result : List ℕ) {end s : K.State} {bs : List ℕ} {n : ℕ} {log : List Event}
    → 0 < c
    → c < 2 ^ 64
    → Delivers K c end s bs n log
    → traced log ≡ []
    → n ≤ fuel
    → (log' : List Event) × (read_all_loop (decorator d K) u8 fuel c result s
        ≡ returns (result ++ bs) end log')
      × (traced log' ≡ bs)
read_all_loop-traced {d} p K prints c fuel result pos small delivers quiet enough =
    let r = decorator-Traced p prints K c delivers in
    (
      r.shown_log,
      read_all_loop-Delivers (decorator d K) c pos small fuel result r.delivers enough,
      r.shows quiet,
    )
