-- ===== src/Libc/Print/Bounds.antt =====
-- The whole text that a format describes, as if `vsnprintf` of libc/libc.c had a buffer without end,
-- and what it keeps of it.
use mathlib.Core.List.{append_assoc, append-nil}
use mathlib.Core.Option
use mai_unix.Prelude.{
  ℕ, zero, suc, ◌-◌, ◌^◌, ◌≤◌, ◌<◌, ◌≡◌, refl, sym, ap, ◌∙◌, inl, inr, Bool, true, false, Option,
  none, some, List, [], ◌∷◌, ◌++◌, arith, ltb, ◌==◌, if◌then◌else◌, tests, Bool-cases, Option-cases,
  length, length-append, take, replicate, length-take, take-all, take-append, List-cases,
}
use mai_unix.Prelude.Words.{sub32}
use mai_unix.Libc.Print.{
  Arg, put, put_all, pad, Piece, padded, bare, convert, fill_count, emit, read_flag, read_width,
  print_loop, vsnprintf,
}
use mai_unix.Prelude.Faults.{◌>>=◌}

abbrev pub piece_text : Bool → ℕ → Piece → List ℕ
piece_text zero_pad width (padded s) =
    replicate (fill_count width (length s)) (if zero_pad then 48 else 32) ++ s
piece_text zero_pad width (bare s) = s

unfoldable pub text_of : ℕ → List ℕ → List Arg → Option (List ℕ)
text_of fuel [] args = some []
text_of zero (c ∷ cs) args = none
text_of (suc n) (c ∷ cs) args = elim (c == b'%') [
  | false ↦ Option.map (λ t. c ∷ t) (text_of n cs args)
  | true ↦
      let (zero_pad, fmt) = read_flag cs in
      let (width, fmt') = read_width 0 fmt in
      elim fmt' [
        | [] ↦ none
        | (k ∷ rest) ↦ convert k args >>= λ r.
            Option.map (λ t. piece_text zero_pad width r.0 ++ t) (text_of n rest r.1)
      ]
]

module _ (size : ℕ) (low : size < 2 ^ 32) (some_room : 0 < size) where
  -- What the buffer keeps of a text.
  abbrev kept : List ℕ → List ℕ
  kept t = take (size - 1) t

  put-kept : (t : List ℕ) (c : ℕ) → put size (kept t) c ≡ kept (t ++ (c ∷ []))
  unfolding put
  put-kept t c =
      let last : sub32 size 1 ≡ size - 1 = omega arith in
      rw last (elim (Bool-cases (ltb (length (kept t)) (size - 1))) [
        | inl room ↦
            let fits : length t < size - 1 = omega (tests, room, length-take (size - 1) t) in
            rw (room) (
              ap (λ out. out ++ (c ∷ [])) (take-all (size - 1) t (omega arith))
              ∙ sym (take-all (size - 1) (t ++ (c ∷ [])) (omega (arith, length-append t (c ∷ [])))))
        | inr full ↦
            let stop : size - 1 ≤ length t = ground (arith, full, length-take (size - 1) t) in
            rw (full) (sym (take-append (size - 1) t (c ∷ []) stop))
      ])

  put_all-kept : (t s : List ℕ) → put_all size (kept t) s ≡ kept (t ++ s)
  unfolding put_all
  put_all-kept t [] = ap kept (sym (append-nil t))
  put_all-kept t (c ∷ cs) =
      ap (λ out. put_all size out cs) (put-kept t c)
      ∙ put_all-kept (t ++ (c ∷ [])) cs
      ∙ ap kept (append_assoc t (c ∷ []) cs)

  pad-kept : (n c : ℕ) (t : List ℕ) → pad n size c (kept t) ≡ kept (t ++ replicate n c)
  unfolding pad
  pad-kept zero c t = ap kept (sym (append-nil t))
  pad-kept (suc n) c t =
      ap (λ out. pad n size c out) (put-kept t c)
      ∙ pad-kept n c (t ++ (c ∷ []))
      ∙ ap kept (append_assoc t (c ∷ []) (replicate n c))

  emit-kept :
      (zero_pad : Bool) (width : ℕ) (p : Piece) (t : List ℕ)
      → emit size zero_pad width p (kept t) ≡ kept (t ++ piece_text zero_pad width p)
  unfolding emit
  emit-kept zero_pad width (bare s) t = put_all-kept t s
  emit-kept zero_pad width (padded s) t =
      let fill = if zero_pad then 48 else 32 in
      ap (λ out. put_all size out s) (pad-kept (fill_count width (length s)) fill t)
      ∙ put_all-kept (t ++ replicate (fill_count width (length s)) fill) s
      ∙ ap kept (append_assoc t (replicate (fill_count width (length s)) fill) s)

  -- A piece of the text, and what follows it.
  map-kept :
      (t s : List ℕ) (o : Option (List ℕ))
      → Option.map (λ u. kept ((t ++ s) ++ u)) o
        ≡ Option.map (λ u. kept (t ++ u)) (Option.map (λ v. s ++ v) o)
  map-kept t s none = refl
  map-kept t s (some v) = ap (λ w. some (kept w)) (append_assoc t s v)

  print_loop-kept :
      (n : ℕ) (fmt : List ℕ) (args : List Arg) (t : List ℕ)
      → print_loop n size fmt args (kept t) ≡ Option.map (λ u. kept (t ++ u)) (text_of n fmt args)
  unfolding print_loop text_of
  print_loop-kept n [] args t = ap (λ w. some (kept w)) (sym (append-nil t))
  print_loop-kept zero (c ∷ cs) args t = refl
  print_loop-kept (suc n) (c ∷ cs) args t =
      let (zero_pad, fmt) = read_flag cs in
      let (width, fmt') = read_width 0 fmt in
      elim (Bool-cases (c == b'%')) [
        | inl conversion ↦ elim (List-cases fmt') [
          | inl stop ↦ rw (print_loop, text_of, conversion, stop)
          | inr (k, rest, e) ↦ elim (Option-cases (convert k args)) [
            | inl fault ↦ rw (print_loop, text_of, conversion, e, fault)
            | inr ((p, args'), got) ↦
                rw (print_loop, text_of, conversion, e, got)
                  (ap (print_loop n size rest args') (emit-kept zero_pad width p t)
                    ∙ print_loop-kept n rest args' (t ++ piece_text zero_pad width p)
                    ∙ map-kept t (piece_text zero_pad width p) (text_of n rest args'))
          ]
        ]
        | inr plain ↦
            rw (print_loop, text_of, plain)
              (ap (print_loop n size cs args) (put-kept t c)
                ∙ print_loop-kept n cs args (t ++ (c ∷ []))
                ∙ map-kept t (c ∷ []) (text_of n cs args))
      ]

pub vsnprintf-take :
    (size : ℕ) (fmt : List ℕ) (args : List Arg)
    → 0 < size
    → size < 2 ^ 32
    → vsnprintf size fmt args ≡ Option.map (λ t. take (size - 1) t) (text_of (length fmt) fmt args)
unfolding vsnprintf
vsnprintf-take size fmt args some_room low =
    let positive : (size == 0) ≡ false = ground arith in
    rw positive (
      ap (print_loop (length fmt) size fmt args) (sym (take-all (size - 1) [] (omega arith)))
      ∙ print_loop-kept size low some_room (length fmt) fmt args [])
