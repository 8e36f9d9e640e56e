-- ===== src/Native/Session/Buffers.antt =====
-- Reading exactly or at least a number of bytes, and the header and frame at the front of the buffer, in
-- `IicpTcpServer._session` of iicp_tcp.py.
use iicp_client_python.Prelude.{
  ℕ, ◌+◌, ◌-◌, ◌≤◌, ◌<◌, ◌≡◌, refl, ap, sym, ◌∙◌, inl, inr, true, none, some, List, [], ◌∷◌, ◌++◌,
  arith, All, length, take, drop, join, leb, ltb, length-append, length-take, length-drop,
  take-drop, take-append, Bool-cases,
}
use mathlib.Core.List.{append_assoc, append-nil}
use mathlib.Core.Path.{subst}
use mathlib.Core.Option.{some-injective}
use iicp_client_python.Prelude.Exec.{ok}
use iicp_client_python.Native.Frames.{
  stable_task_message_type_error, IicpFrame, header_len, max_frame_payload, framing_version,
  is_magic, of_be32, decode, decode_body,
}
use iicp_client_python.Native.Session.{readexactly, fill, peek}

-- `read` returns no bytes only at the end
abbrev pub Chunk : List ℕ → Type 0
Chunk c = 0 < length c

-- What `fill` has read is what was there, in the same order.
pub record Filled (n : ℕ) (buf : List ℕ) (cs : List (List ℕ)) (r : List ℕ × List (List ℕ))
    : Type 0 where
  pub enough : n ≤ length r.0
  pub more : (xs : List ℕ) × (r.0 ≡ buf ++ xs) × (xs ++ join r.1 ≡ join cs)
  pub chunks : All Chunk r.1

pub fill_enough :
    (n : ℕ) (buf : List ℕ) (cs : List (List ℕ)) → n ≤ length buf → fill n buf cs ≡ some (buf, cs)
unfolding fill
fill_enough n buf [] h = ground arith
fill_enough n buf (c ∷ cs) h = ground arith

fill_more :
    (n : ℕ) (buf c : List ℕ) (cs : List (List ℕ))
    → length buf < n
    → Chunk c
    → fill n buf (c ∷ cs) ≡ fill n (buf ++ c) cs
unfolding fill
fill_more n buf c cs h k = ground arith

Filled-cons :
    (n : ℕ) (buf c : List ℕ) (cs : List (List ℕ)) (r : List ℕ × List (List ℕ))
    → Filled n (buf ++ c) cs r
    → Filled n buf (c ∷ cs) r
Filled-cons n buf c cs r h =
    let (xs, e, k) = h.more in
    record {
      enough = h.enough;
      more =
          (c ++ xs, e ∙ append_assoc buf c xs, append_assoc c xs (join r.1) ∙ ap (λ ys. c ++ ys) k);
      chunks = h.chunks;
    }

enough-Filled :
    (n : ℕ) (buf : List ℕ) (cs : List (List ℕ))
    → n ≤ length buf
    → All Chunk cs
    → Filled n buf cs (buf, cs)
enough-Filled n buf cs k h = record {
  enough = k;
  more = ([], sym (append-nil buf), refl);
  chunks = h;
}

pub fill-some :
    (n : ℕ) (buf : List ℕ) (cs : List (List ℕ)) (r : List ℕ × List (List ℕ))
    → All Chunk cs
    → fill n buf cs ≡ some r
    → Filled n buf cs r
fill-some n buf [] r h e =
    let k : n ≤ length buf = unfold fill in ground arith in
    subst (Filled n buf []) (some-injective _ _ (sym (fill_enough n buf [] k) ∙ e))
      (enough-Filled n buf [] k tt)
fill-some n buf (c ∷ cs) r h e = elim (Bool-cases (leb n (length buf))) [
  | inl k ↦
      subst (Filled n buf (c ∷ cs))
        (some-injective _ _ (sym (fill_enough n buf (c ∷ cs) (ground arith)) ∙ e))
        (enough-Filled n buf (c ∷ cs) (ground arith) h)
  | inr k ↦
      Filled-cons n buf c cs r
        (fill-some n (buf ++ c) cs r h.1 (sym (fill_more n buf c cs (ground arith) h.0) ∙ e))
]

pub fill-none :
    (n : ℕ) (buf : List ℕ) (cs : List (List ℕ))
    → All Chunk cs
    → fill n buf cs ≡ none
    → length (buf ++ join cs) < n
fill-none n buf [] h e = unfold fill in ground (arith, length-append buf [])
fill-none n buf (c ∷ cs) h e = elim (Bool-cases (leb n (length buf))) [
  | inl k ↦ absurd (ground (arith, fill_enough n buf (c ∷ cs)))
  | inr k ↦
      rw (← append_assoc)
        (fill-none n (buf ++ c) cs h.1 (sym (fill_more n buf c cs (ground arith) h.0) ∙ e))
]

pub fill_short : (n : ℕ) (buf : List ℕ) → length buf < n → fill n buf [] ≡ none
unfolding fill
fill_short n buf h = ground arith

pub Filled-join :
    (n : ℕ) (buf : List ℕ) (cs : List (List ℕ)) (r : List ℕ × List (List ℕ))
    → Filled n buf cs r
    → (n ≤ length (buf ++ join cs)) × (r.0 ++ join r.1 ≡ buf ++ join cs)
Filled-join n buf cs r h =
    let (xs, e, k) = h.more in
    let same : r.0 ++ join r.1 ≡ buf ++ join cs =
      ap (λ (b : List ℕ). b ++ join r.1) e
      ∙ append_assoc buf xs (join r.1)
      ∙ ap (λ (b : List ℕ). buf ++ b) k in
    (omega (arith, h.enough, ap length same, length-append r.0 (join r.1)), same)

-- Only the header is looked at.
pub peek-append : (buf xs : List ℕ) → header_len ≤ length buf → peek (buf ++ xs) ≡ peek buf
unfolding peek
peek-append (m₀ ∷ m₁ ∷ m₂ ∷ m₃ ∷ v ∷ t ∷ fl ∷ r ∷ l₀ ∷ l₁ ∷ l₂ ∷ l₃ ∷ rest) xs h = refl
peek-append buf xs h = absurd (omega arith)

-- What `decode` makes of a frame that has arrived.
pub record Arrived (msg_type total : ℕ) (buf : List ℕ) : Type 0 where
  pub frame : IicpFrame
  pub kind : frame.msg_type ≡ msg_type
  pub decodes : (xs : List ℕ) → decode (buf ++ xs) ≡ ok (frame, total)
  pub header : header_len ≤ total
  pub stable : stable_task_message_type_error msg_type ≡ none

decode_body_ok :
    (m₀ m₁ m₂ m₃ v t fl len : ℕ) (rest xs : List ℕ)
    → is_magic m₀ m₁ m₂ m₃ ≡ true
    → v ≡ framing_version
    → len ≤ max_frame_payload
    → len ≤ length rest
    → decode_body (is_magic m₀ m₁ m₂ m₃) v t fl len (rest ++ xs)
      ≡ ok (
        record { version = v; msg_type = t; flags = fl; payload = take len rest },
        header_len + len,
      )
unfolding decode_body
decode_body_ok m₀ m₁ m₂ m₃ v t fl len rest xs magic supported small here =
    ground (arith, length-append rest xs, take-append len rest xs here)

pub peek-Arrived :
    (buf : List ℕ) (msg_type total : ℕ)
    → peek buf ≡ ok (msg_type, total)
    → total ≤ length buf
    → Arrived msg_type total buf
unfolding peek decode
peek-Arrived (m₀ ∷ m₁ ∷ m₂ ∷ m₃ ∷ v ∷ t ∷ fl ∷ r ∷ l₀ ∷ l₁ ∷ l₂ ∷ l₃ ∷ rest) msg_type total h k =
    let len : ℕ = of_be32 l₀ l₁ l₂ l₃ in
    let same : header_len + len ≡ total = ground arith in
    let decodes = λ (xs : List ℕ).
      decode_body_ok m₀ m₁ m₂ m₃ v t fl len rest xs (ground arith) (ground arith) (ground arith)
        (omega arith) in
    record {
      frame = record { version = v; msg_type = t; flags = fl; payload = take len rest };
      kind = ground arith;
      decodes = λ xs. rw (← same) (decodes xs);
      header = omega arith;
      stable = ground arith;
    }
peek-Arrived buf msg_type total h k = cc

-- What `readexactly` returns, and what it leaves.
pub record Taken (n : ℕ) (cs : List (List ℕ)) (r : List ℕ × List (List ℕ)) : Type 0 where
  pub size : length r.0 ≡ n
  pub same : r.0 ++ join r.1 ≡ join cs
  pub chunks : All Chunk r.1

pub readexactly_short :
    (n : ℕ) (cs : List (List ℕ)) → length (join cs) < n → readexactly n cs ≡ none
unfolding readexactly
readexactly_short n [] h = ground arith
readexactly_short n (c ∷ cs) h =
    ground (arith, length-append c (join cs), readexactly_short (n - length c) cs)

pub readexactly-Taken :
    (n : ℕ) (cs : List (List ℕ))
    → All Chunk cs
    → n ≤ length (join cs)
    → (r : List ℕ × List (List ℕ)) × (readexactly n cs ≡ some r) × Taken n cs r
unfolding readexactly
readexactly-Taken n [] h k =
    (([], []), ground arith, record { size = omega arith; same = refl; chunks = tt })
readexactly-Taken n (c ∷ cs) h k = elim (Bool-cases (ltb n (length c))) [
  | inl e ↦ (
    (take n c, drop n c ∷ cs),
    rw e refl,
    record {
      size = length-take n c (ground arith);
      same =
          sym (append_assoc (take n c) (drop n c) (join cs))
          ∙ ap (λ (b : List ℕ). b ++ join cs) (take-drop n c);
      chunks = (ground (arith, length-drop n c), h.1);
    },
  )
  | inr e ↦
      let (r, f, t) =
        readexactly-Taken (n - length c) cs h.1 (ground (arith, length-append c (join cs))) in
      (
        (c ++ r.0, r.1),
        rw (e, f) refl,
        record {
          size = ground (arith, length-append c r.0, t.size);
          same = append_assoc c r.0 (join r.1) ∙ ap (λ (b : List ℕ). c ++ b) t.same;
          chunks = t.chunks;
        },
      )
]
