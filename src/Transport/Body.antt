-- ===== src/Transport/Body.antt =====
-- httpx_transports.py: how much of a body is held, and which bodies are taken.
use fastapi_better_auth.Base.{
  ℕ, zero, suc, ◌+◌, ◌-◌, ◌≤◌, ◌<◌, ◌≡◌, ◌↔◌, refl, sym, ap, ◌∙◌, inl, inr, Bool, true, false,
  Option, none, some, List, [], ◌∷◌, ◌++◌, append_assoc, append-nil, length, length-append, take,
  ltb, arith, Bool-cases, Option-cases,
}
use fastapi_better_auth.Text.{Str, Bytes, lit}
use fastapi_better_auth.Errors.{ok, ok_of, bind-eq-ok}
use fastapi_better_auth.Transport.{
  Stream, ended, failed, chunk, StreamedResponse, read_from, lowered, find, whole, capped,
  reject_content_encoding, encoding_refused,
}

-- The body that a stream delivers, if it reaches its end.
unfoldable pub delivered : Stream → Option Bytes
delivered ended = some []
delivered (failed e) = none
delivered (chunk c rest) = elim (delivered rest) [ none ↦ none | some body ↦ some (c ++ body) ]

length-take : {A : Type 0} (n : ℕ) (xs : List A) → length (take n xs) ≤ n
length-take zero xs = omega arith
length-take (suc n) [] = omega arith
length-take (suc n) (x ∷ xs) = omega (arith, length-take n xs)

take_whole : {A : Type 0} (n : ℕ) (xs : List A) → length (take n xs) < n → take n xs ≡ xs
take_whole zero xs h = absurd (omega arith)
take_whole (suc n) [] h = refl
take_whole (suc n) (x ∷ xs) h = ap (λ l. x ∷ l) (take_whole n xs (omega arith))

take_shorter : {A : Type 0} (n : ℕ) (xs : List A) → length (take n xs) ≤ length xs
take_shorter zero xs = omega arith
take_shorter (suc n) [] = omega arith
take_shorter (suc n) (x ∷ xs) = omega (arith, take_shorter n xs)

-- one turn of the loop, within the cap: the chunk was taken whole
turn_within :
    (cap : ℕ) (body c : Bytes)
    → length body ≤ cap
    → ltb cap (length (body ++ take (cap - length body + 1) c)) ≡ false
    → take (cap - length body + 1) c ≡ c
turn_within cap body c h k =
    take_whole (cap - length body + 1) c
      (ground (arith, length-append body (take (cap - length body + 1) c)))

-- Whatever the chunks are, a read holds at most one byte more than the cap.
pub read_from-length :
    (cap : ℕ) (body : Bytes) (s : Stream) (out : Bytes) (cancelled : Bool)
    → length body ≤ cap
    → read_from cap body s ≡ ok (out, cancelled)
    → length out ≤ cap + 1
unfolding read_from
read_from-length cap body ended out cancelled h e =
    let k : body ≡ out = ap (λ p. p.0) (ok_of e) in rw (← k) (omega arith)
read_from-length cap body (failed x) out cancelled h e = absurd (cc)
read_from-length cap body (chunk c rest) out cancelled h e =
    elim (Bool-cases (ltb cap (length (body ++ take (cap - length body + 1) c)))) [
      | inl over ↦
          let k : body ++ take (cap - length body + 1) c ≡ out =
            ap (λ p. p.0) (ok_of (rw over at e)) in
          rw (← k) (
            omega (
              arith,
              length-append body (take (cap - length body + 1) c),
              length-take (cap - length body + 1) c,
            ))
      | inr within ↦
          read_from-length cap (body ++ take (cap - length body + 1) c) rest out cancelled
            (ground (arith, within)) (rw within at e)
    ]

read_whole :
    (cap : ℕ) (body : Bytes) (s : Stream) (out : Bytes)
    → length body ≤ cap
    → (read_from cap body s ≡ ok (out, false)) ↔ (
        (content : Bytes) × (delivered s ≡ some content)
        × (out ≡ body ++ content)
        × (length out ≤ cap))
unfolding read_from delivered
read_whole cap body ended out h = (
  λ e.
      let k : body ≡ out = ap (λ p. p.0) (ok_of e) in
      ([], refl, sym k ∙ sym (append-nil body), rw (← k) h),
  λ (content, d, e, f).
      let k : [] ≡ content = cc in
      ap (λ b. ok (b, false)) (sym (e ∙ (ap (λ l. body ++ l) (sym k) ∙ append-nil body))),
)
read_whole cap body (failed x) out h = (λ e. absurd (cc), λ (content, d, e, f). absurd (cc))
read_whole cap body (chunk c rest) out h =
    elim (Bool-cases (ltb cap (length (body ++ take (cap - length body + 1) c)))) [
      | inl over ↦ rw over (
        λ e. absurd (cc),
        λ (content, d, e, f). elim (Option-cases (delivered rest)) [
          | inl none_left ↦ absurd (cc (rw none_left at d))
          | inr (last, there) ↦
              let k : c ++ last ≡ content = cc (rw there at d) in
              let big = length-append body (take (cap - length body + 1) c) in
              let all_ = length-append body content in
              let of_chunk = length-append c last in
              absurd (
                ground (
                  arith,
                  over,
                  f,
                  ap length e,
                  ap length k,
                  big,
                  all_,
                  of_chunk,
                  take_shorter (cap - length body + 1) c,
                ))
        ],
      )
      | inr within ↦
          let taken : take (cap - length body + 1) c ≡ c = turn_within cap body c h within in
          let (to, from) =
            read_whole cap (body ++ take (cap - length body + 1) c) rest out
              (ground (arith, within)) in
          rw within (
            λ e.
                let (content, d, k, f) = to e in
                (
                  c ++ content,
                  rw d refl,
                  k ∙ (ap (λ l. (body ++ l) ++ content) taken ∙ append_assoc body c content),
                  f,
                ),
            λ (content, d, e, f). elim (Option-cases (delivered rest)) [
              | inl none_left ↦ absurd (cc (rw none_left at d))
              | inr (last, there) ↦
                  let k : c ++ last ≡ content = cc (rw there at d) in
                  from (
                    last,
                    there,
                    e
                        ∙ (ap (λ l. body ++ l) (sym k)
                            ∙ (sym (append_assoc body c last)
                                ∙ ap (λ l. (body ++ l) ++ last) (sym taken))),
                    f,
                  )
            ],
          )
    ]

encoding_absent : (o : Option Str) → (encoding_refused o ≡ ok tt) ↔ (o ≡ none)
unfolding encoding_refused
encoding_absent none = (λ h. refl, λ h. refl)
encoding_absent (some e) = (λ h. absurd (cc), λ h. absurd (cc))

whole_iff : (p : Bytes × Bool) (out : Bytes) → (whole p ≡ ok out) ↔ (p ≡ (out, false))
unfolding whole
whole_iff (body, true) out = (λ h. absurd (cc), λ h. absurd (cc))
whole_iff (body, false) out = (λ h. ap (λ b. (b, false)) (ok_of h), λ h. ap (λ p. ok p.0) h)

-- A response that is taken in full.
pub record IsRead (s : StreamedResponse) (limit : ℕ) (body : Bytes) : Type 0 where
  pub plain : find (lit "content-encoding") (lowered s.headers) ≡ none
  pub arrived : delivered s.raw ≡ some body
  pub short : length body ≤ limit

pub capped-IsRead :
    (s : StreamedResponse) (limit : ℕ) (body : Bytes)
    → (capped s limit ≡ ok body) ↔ IsRead s limit body
unfolding capped reject_content_encoding
capped-IsRead s limit body = (
  λ h.
      let (_, plain, k) =
        bind-eq-ok (encoding_refused (find (lit "content-encoding") (lowered s.headers))) _ h in
      let (p, read, e) = bind-eq-ok (read_from limit [] s.raw) _ k in
      let (content, there, same, short) =
        (read_whole limit [] s.raw body (omega arith)).0 (read ∙ ap ok ((whole_iff p body).0 e)) in
      record {
        plain = (encoding_absent (find (lit "content-encoding") (lowered s.headers))).0 plain;
        arrived = there ∙ ap some (sym same);
        short = short;
      },
  λ r.
      rw
        (
          (encoding_absent (find (lit "content-encoding") (lowered s.headers))).1 r.plain,
          (read_whole limit [] s.raw body (omega arith)).1 (body, r.arrived, refl, r.short),
        )
        (unfold whole in refl),
)
