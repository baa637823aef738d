-- ===== src/Index/Queries/Buffers.antt =====
-- The growing buffer of db_ops.c: whatever is added fits, and stands behind what was there.
use glite_jp.Base.{
  ℕ, zero, suc, ◌+◌, ◌*◌, ◌≤◌, ◌<◌, ◌++◌, Bytes, Outcome, ok, ◌>>=◌, length, length-append,
  append_assoc, ◌≡◌, refl, ap, ◌∙◌, arith,
}
use glite_jp.Index.Queries.{Buffer, doubled, grown, array_add}

-- The content fits in the buffer, whose size is not 0.
pub record IsBuffer (b : Buffer) : Type 0 where
  pub roomy : 0 < b.maxlen
  pub within : length b.content ≤ b.maxlen

-- The call succeeds, and adds these bytes.
pub record Adds (b : Buffer) (s : Bytes) (m : Outcome Buffer) : Type 0 where
  pub result : Buffer
  pub returned : m ≡ ok result
  pub added : result.content ≡ b.content ++ s
  pub kept : IsBuffer result

le-doubled :
    (fuel len maxlen : ℕ)
    → 0 < maxlen
    → len ≤ maxlen + fuel
    → (len ≤ doubled fuel len maxlen) × (0 < doubled fuel len maxlen)
unfolding doubled
le-doubled zero len maxlen h k = omega arith
le-doubled (suc fuel) len maxlen h k =
    ground (arith, le-doubled fuel len (maxlen * 2) (omega arith))

le-grown : (len maxlen : ℕ) → 0 < maxlen → (len ≤ grown len maxlen) × (0 < grown len maxlen)
le-grown len maxlen h = ground (arith, le-doubled len len maxlen)

-- Adding bytes to a buffer whose content fits and whose size is not 0 never copies behind its end,
-- and the doubling of the size stops: the call succeeds, the bytes stand behind the content, and
-- the new content fits.
pub array_add-Adds : (b : Buffer) (s : Bytes) → IsBuffer b → Adds b s (array_add b s)
array_add-Adds b s w = record {
  result = record {
    content = b.content ++ s;
    maxlen = grown (length b.content + length s) b.maxlen;
  };
  returned = copied;
  added = refl;
  kept = record { roomy = fits.1; within = omega (arith, length-append b.content s, fits.0) };
}
  where
    fits :
        (length b.content + length s ≤ grown (length b.content + length s) b.maxlen)
        × (0 < grown (length b.content + length s) b.maxlen)
    fits = le-grown (length b.content + length s) b.maxlen w.roomy

    copied :
        array_add b s
        ≡ ok (record {
          content = b.content ++ s;
          maxlen = grown (length b.content + length s) b.maxlen;
        })
    copied = unfold array_add in ground (arith, fits)

pub Adds-bind :
    (b : Buffer) (s t : Bytes) (m : Outcome Buffer) (f : Buffer → Outcome Buffer)
    → Adds b s m
    → ((c : Buffer) → IsBuffer c → Adds c t (f c))
    → Adds b (s ++ t) (m >>= f)
Adds-bind b s t m f h k =
    let n = k h.result h.kept in
    record {
      result = n.result;
      returned = ap (λ (o : Outcome Buffer). o >>= f) h.returned ∙ n.returned;
      added = n.added ∙ ap (λ (l : Bytes). l ++ t) h.added ∙ append_assoc b.content s t;
      kept = n.kept;
    }
