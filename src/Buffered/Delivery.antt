-- ===== src/Buffered/Delivery.antt =====
-- Records in chunks: what a flush and a write of `BufferedWriteSyncer` do to them.
use mathlib.Core.List.{flatten, map-append}
use buffer_full_flush_once.Common.{
  ◌≡◌, refl, sym, ◌∙◌, List, [], ◌∷◌, ◌++◌, map, append-nil, append_assoc, flatten-append,
  flatten-one, flatten-map-flatten,
}
use buffer_full_flush_once.Common.Bytes.{Bytes}
use buffer_full_flush_once.Buffered.Whole.{Written, buffered, flushed, flushed_direct, direct}

-- The chunks are runs of whole records, those in `groups`; with the records in `pending`, which
-- make up the buffer, they are the accepted records, in order.
pub record Delivered (accepted chunks : List Bytes) (buffer : Bytes) : Type 0 where
  pub groups : List (List Bytes)
  pub pending : List Bytes
  pub whole : chunks ≡ map flatten groups
  pub unsent : buffer ≡ flatten pending
  pub in_order : accepted ≡ flatten groups ++ pending

ruleset list_laws = (map-append, flatten-append, flatten-one, append_assoc, append-nil)

module _ {accepted chunks chunks' : List Bytes} {buffer : Bytes} where
  -- The buffer becomes a chunk.
  pub Delivered-flush :
      Delivered accepted chunks buffer
      → chunks' ≡ chunks ++ buffer ∷ []
      → Delivered accepted chunks' []
  Delivered-flush d e = record {
    groups = d.groups ++ d.pending ∷ [];
    pending = [];
    whole = rw (e, d.whole, d.unsent, map-append);
    unsent = unfold flatten in refl;
    in_order = d.in_order ∙ simp list_laws;
  }

  -- A record is appended to the buffer.
  Delivered-append :
      {buffer' : Bytes} (p : Bytes)
      → Delivered accepted chunks buffer
      → chunks' ≡ chunks
      → buffer' ≡ buffer ++ p
      → Delivered (accepted ++ p ∷ []) chunks' buffer'
  Delivered-append p d e e' = record {
    groups = d.groups;
    pending = d.pending ++ p ∷ [];
    whole = e ∙ d.whole;
    unsent = rw (e', d.unsent) (simp list_laws);
    in_order = rw d.in_order (simp list_laws);
  }

pub Delivered-Written :
    {accepted chunks chunks' : List Bytes} {buffer buffer' : Bytes} (p : Bytes)
    → Delivered accepted chunks buffer
    → Written p chunks chunks' buffer buffer'
    → Delivered (accepted ++ p ∷ []) chunks' buffer'
Delivered-Written p d (buffered e e') = Delivered-append p d e e'
Delivered-Written p d (flushed e e') = Delivered-append p (Delivered-flush d refl) e e'
Delivered-Written {chunks = chunks} {buffer = buffer} p d (flushed_direct e e') = rw e' (
    Delivered-flush (Delivered-append p (Delivered-flush d refl) refl refl)
      (e ∙ sym (append_assoc chunks (buffer ∷ []) (p ∷ []))))
Delivered-Written p d (direct e₀ e e') =
    rw e' (Delivered-flush (Delivered-append p d refl refl) (rw e₀ e))

-- With an empty buffer, every accepted byte is in a chunk.
pub Delivered-empty :
    {accepted chunks : List Bytes}
    → Delivered accepted chunks []
    → flatten chunks ≡ flatten accepted
Delivered-empty d =
    rw (d.whole, d.in_order, flatten-append, flatten-map-flatten, ← d.unsent)
      (sym (append-nil (flatten (flatten d.groups))))
