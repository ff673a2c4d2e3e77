-- ===== src/Sync/Files/Batches.antt =====
-- What a batch does to the invariant: `process_embed_batch`.
use mathlib.Core.List.{append-nil, append_assoc}
use goodgrep.Prelude.{
  ◌+◌, String, Bool, true, false, not, ◌&&◌, ◌≡◌, refl, ap, sym, subst, List, [], ◌∷◌, ◌++◌, arith,
  inl, inr,
}
use goodgrep.Prelude.Tests.{◌==◌, nat_key, string_key, Bool-cases}
use goodgrep.Prelude.Lists.{contains, contains-append, is_empty, length}
use goodgrep.Prelude.Results.{Result, ok, err, ◌>>=◌, Result-cases}
use goodgrep.Prelude.Maps.{lookup-insert}
use goodgrep.Sync.Files.{
  FileMeta, PendingEmbed, SyncState, EmbedBatchOutcome, set_meta, meta_of, entry_chunks, all_chunks,
  texts_of, records, mark_indexed, no_outcome, insert_segment_batch, retry_files,
  process_embed_batch,
}
use goodgrep.Sync.Files.Retries.{retry_one, retry_nothing, retry_failed}
use goodgrep.Sync.Files.Absorbed.{queue_paths, row_paths, Pending}

-- A property of what is returned, if something is.
abbrev pub OnOk {κ} : {E A : Type 0} → (A → Type κ) → Result E A → Type κ
OnOk Q (ok a) = Q a
OnOk Q (err e) = Unit

pub bind-OnOk {κ μ} :
    {E A B : Type 0} (Q : A → Type κ) (R : B → Type μ) (m : Result E A) (f : A → Result E B)
    → OnOk Q m
    → ((a : A) → Q a → OnOk R (f a))
    → OnOk R (m >>= f)
bind-OnOk Q R (ok a) f h step = step a h
bind-OnOk Q R (err e) f h step = tt

abbrev chunk_paths : {P : Type 0} → List (String × P) → List String
chunk_paths [] = []
chunk_paths (c ∷ cs) = c.0 ∷ chunk_paths cs

row_paths-records :
    {P V : Type 0} (cs : List (String × P)) (vs : List V) (p : String)
    → (contains (row_paths (records cs vs)) p && not (contains (chunk_paths cs) p)) ≡ false
unfolding records
row_paths-records [] vs p = refl
row_paths-records (c ∷ cs) [] p = refl
row_paths-records (c ∷ cs) (v ∷ vs) p = ground (arith, row_paths-records cs vs p)

row_paths-append :
    {P V : Type 0} (xs ys : List (String × P × V))
    → row_paths (xs ++ ys) ≡ row_paths xs ++ row_paths ys
row_paths-append [] ys = refl
row_paths-append (x ∷ xs) ys = ap (λ ps. x.0 ∷ ps) (row_paths-append xs ys)

chunk_paths-append :
    {P : Type 0} (xs ys : List (String × P))
    → chunk_paths (xs ++ ys) ≡ chunk_paths xs ++ chunk_paths ys
chunk_paths-append [] ys = refl
chunk_paths-append (x ∷ xs) ys = ap (λ ps. x.0 ∷ ps) (chunk_paths-append xs ys)

chunk_paths-entry_chunks :
    {P : Type 0} (path : String) (cs : List P) (p : String)
    → (contains (chunk_paths (entry_chunks path cs)) p && not (path == p)) ≡ false
unfolding entry_chunks
chunk_paths-entry_chunks path [] p = refl
chunk_paths-entry_chunks path (c ∷ cs) p = ground (arith, chunk_paths-entry_chunks path cs p)

chunk_paths-all_chunks :
    {H P : Type 0} (batch : List (PendingEmbed H P)) (p : String)
    → (contains (chunk_paths (all_chunks batch)) p && not (contains (queue_paths batch) p)) ≡ false
unfolding all_chunks
chunk_paths-all_chunks [] p = refl
chunk_paths-all_chunks (entry ∷ batch) p = ground (
  arith,
  chunk_paths-all_chunks batch p,
  chunk_paths-entry_chunks entry.path_key entry.chunks p,
  ap (λ ps. contains ps p)
      (chunk_paths-append (entry_chunks entry.path_key entry.chunks) (all_chunks batch)),
  contains-append (chunk_paths (entry_chunks entry.path_key entry.chunks))
      (chunk_paths (all_chunks batch)) p,
)

module _ {H P V : Type 0} (first : List (String × FileMeta H)) (p : String)
    (queue : List String) where
  pub rows-Pending :
      (left extra : List String) (s : SyncState H P V) (new : List (String × P × V))
      → Pending first p queue left s
      → (contains extra p && not (contains queue p)) ≡ false
      → (contains (row_paths new) p && not (contains extra p)) ≡ false
      → Pending first p queue (left ++ extra) (record s { rows = s.rows ++ new })
  rows-Pending left extra s new i sub own = record {
    kept = record { recorded = i.kept.recorded; known = i.kept.known; replaced = i.kept.replaced };
    waiting = i.waiting;
    still = i.still;
    queued = ground (arith, contains-append left extra p, i.queued, sub);
    own_rows = ground (
      arith,
      contains-append left extra p,
      ap (λ ps. contains ps p) (row_paths-append s.rows new),
      contains-append (row_paths s.rows) (row_paths new) p,
      own,
      i.own_rows,
    );
  }

  pub set_meta-Pending :
      (left : List String) (key : String) (m : FileMeta H) (s : SyncState H P V)
      → Pending first p queue left s
      → Pending first p queue left (set_meta key m s)
  unfolding set_meta
  set_meta-Pending left key m s i = record {
    kept = record {
      recorded = i.kept.recorded;
      known = ground (arith, lookup-insert key p m s.meta, i.kept.known);
      replaced = i.kept.replaced;
    };
    waiting = i.waiting;
    still = i.still;
    queued = i.queued;
    own_rows = i.own_rows;
  }

  -- The state and the outcome of a batch.
  abbrev pub Batch : SyncState H P V × EmbedBatchOutcome → Type 0
  Batch r = Pending first p queue r.1.indexed_paths r.0

  mark_indexed-Batch :
      (batch : List (PendingEmbed H P)) (s : SyncState H P V) (o : EmbedBatchOutcome)
      → Pending first p queue (o.indexed_paths ++ queue_paths batch) s
      → Batch (mark_indexed batch s o)
  unfolding mark_indexed
  mark_indexed-Batch [] s o i =
      subst (λ l. Pending first p queue l s) (append-nil o.indexed_paths) i
  mark_indexed-Batch (entry ∷ batch) s o i =
      mark_indexed-Batch batch (set_meta entry.path_key (meta_of entry) s)
        (record o {
          indexed_paths = o.indexed_paths ++ entry.path_key ∷ [];
          indexed = o.indexed + 1;
        })
        (set_meta-Pending _ entry.path_key (meta_of entry) s (
          subst (λ l. Pending first p queue l s)
            (sym (append_assoc o.indexed_paths (entry.path_key ∷ []) (queue_paths batch))) i))

  module _ (embed : Bool → List P → Result String (List V))
      (insert_error : List (String × P × V) → Bool) where
    insert-Pending :
        (left extra : List String) (chunks : List (String × P)) (embeddings : List V)
        (s : SyncState H P V)
        → Pending first p queue left s
        → (contains extra p && not (contains queue p)) ≡ false
        → (contains (chunk_paths chunks) p && not (contains extra p)) ≡ false
        → OnOk
            (Pending first p queue (left ++ extra))
            (insert_segment_batch embed insert_error chunks embeddings s)
    unfolding insert_segment_batch
    insert-Pending left extra chunks embeddings s i sub own =
        elim (Bool-cases (length embeddings == length chunks)) [
          | inr other ↦ rw other tt
          | inl same ↦ elim (Bool-cases (insert_error (records chunks embeddings))) [
            | inl bad ↦ rw (same, bad) tt
            | inr good ↦
                rw (same, good)
                  (rows-Pending left extra s (records chunks embeddings) i sub
                    (ground (arith, row_paths-records chunks embeddings p, own)))
          ]
        ]

    retry_files-Batch :
        (batch : List (PendingEmbed H P)) (s : SyncState H P V) (o : EmbedBatchOutcome)
        → (contains (queue_paths batch) p && not (contains queue p)) ≡ false
        → Batch (s, o)
        → OnOk Batch (retry_files embed insert_error batch s o)
    retry_files-Batch [] s o sub i = unfold retry_files in i
    retry_files-Batch (entry ∷ batch) s o sub i =
        elim (Bool-cases (is_empty (entry_chunks entry.path_key entry.chunks))) [
          | inl nothing ↦
              subst (OnOk Batch) (sym (retry_nothing embed insert_error entry batch s o nothing))
                (retry_files-Batch batch s o (ground (arith, sub)) i)
          | inr some_chunks ↦ elim (Result-cases (embed false entry.chunks)) [
            | inr (message, bad) ↦
                subst (OnOk Batch)
                  (sym (retry_failed embed insert_error entry batch s o message some_chunks bad))
                  (retry_files-Batch batch s _ (ground (arith, sub)) i)
            | inl (embeddings, good) ↦
                subst (OnOk Batch)
                  (sym (retry_one embed insert_error entry batch s o embeddings some_chunks good))
                  (bind-OnOk _ _ _ _
                    (insert-Pending o.indexed_paths (entry.path_key ∷ [])
                      (entry_chunks entry.path_key entry.chunks) embeddings s i
                      (ground (arith, sub))
                      (ground (arith, chunk_paths-entry_chunks entry.path_key entry.chunks p)))
                    (λ t j.
                      (let (u, q) = mark_indexed (entry ∷ []) t o in
                        retry_files-Batch batch u q (ground (arith, sub))
                          (mark_indexed-Batch (entry ∷ []) t o j))))
          ]
        ]

    pub process_embed_batch-Batch :
        (batch : List (PendingEmbed H P)) (s : SyncState H P V)
        → (contains (queue_paths batch) p && not (contains queue p)) ≡ false
        → Pending first p queue [] s
        → OnOk Batch (process_embed_batch embed insert_error batch s)
    unfolding process_embed_batch
    process_embed_batch-Batch batch s sub i = elim (Bool-cases (is_empty (all_chunks batch))) [
      | inl nothing ↦ rw nothing i
      | inr some_chunks ↦ elim (Result-cases (embed true (texts_of (all_chunks batch)))) [
        | inr (message, bad) ↦ rw (some_chunks, bad) (retry_files-Batch batch s no_outcome sub i)
        | inl (embeddings, good) ↦
            rw (some_chunks, good)
              (bind-OnOk _ _ _ _
                (insert-Pending [] (queue_paths batch) (all_chunks batch) embeddings s i sub
                  (chunk_paths-all_chunks batch p))
                (λ t j. mark_indexed-Batch batch t no_outcome j))
      ]
    ]
