-- ===== src/File/Fetch/Written.antt =====
-- `read` after `write`: what was written comes back.
use kvfs_ra_testing.Base.{
  ℕ, ◌+◌, ◌≤◌, ◌<◌, ◌^◌, ◌≡◌, ◌⊎◌, inl, inr, refl, ◌∙◌, true, some, Bytes, at, length, take,
  list_ext, length-take, get_or-take, arith, Option,
}
use kvfs_ra_testing.Store.{KvStore, Refused}
use kvfs_ra_testing.Status.{ok, internal_error}
use kvfs_ra_testing.Meta.{resident}
use kvfs_ra_testing.File.{MetaLayout, LogFsFile}
use kvfs_ra_testing.File.Content.{byte_at}
use kvfs_ra_testing.File.Valid.{FileIsValid}
use kvfs_ra_testing.File.Write.{Written, write}
use kvfs_ra_testing.File.Write.Result.{WriteOk, WriteDone, write-WriteDone}
use kvfs_ra_testing.File.Hold.{TieredInFile}
use kvfs_ra_testing.File.Fetch.{Fetched, read}
use kvfs_ra_testing.File.Fetch.Content.{read-resident}

module _ (K : KvStore) (layout : MetaLayout) (now later : ℕ) (agent : ℕ → Option TieredInFile)
    (f : LogFsFile) (s : K.State) (v : FileIsValid K f s) (offset len : ℕ) (buf : Bytes)
    (enough : len ≤ length buf) (here : f.meta.eviction_state ≡ resident)
    (small : f.meta.file_total_size < 2 ^ 63) (end_small : offset + len < 2 ^ 63) where
  read_back :
      (w : Written K.State)
      → WriteDone K layout f s v.chunk_pos offset len buf w
      → WriteOk K layout f offset len w
      → (r : Fetched K.State) × (read K layout later agent w.file w.store offset len true ≡ some r)
        × (r.actual_len ≡ len)
        × (r.out ≡ take len buf)
  read_back w d k =
      let (r, e, done, _, _) =
        read-resident K layout later agent w.file w.store k.valid offset len
          (omega (arith, k.total)) (omega (arith, k.total)) (k.same_eviction ∙ here) in
      let count : r.actual_len ≡ len = omega (arith, k.total, done.amount) in
      let long : length r.out ≡ length (take len buf) =
        omega (arith, done.all_laid, count, length-take len buf) in
      (
        r,
        e,
        count,
        list_ext r.out (take len buf) 0 long (λ j inside.
            let same : at r.out j ≡ byte_at K f.handle f.meta.file_chunk_size w.store (offset + j) =
              done.bytes j (omega (arith, done.all_laid))
              ∙ rw (k.same_handle, k.same_chunk_size) refl in
            ground (
              arith,
              same,
              d.wrote (offset + j),
              k.complete,
              count,
              done.all_laid,
              get_or-take len buf j 0,
            )),
      )

  -- For a valid file that is resident, with sizes below 2^63: `write` returns, and either STATUS_OK, and
  -- `read` at the same offset and length then returns, with the bytes that were written, or
  -- STATUS_INTERNAL_ERROR, and a put was refused on the way to the store that it leaves.
  pub read-after-write :
      (w : Written K.State) × (write K layout f s offset len (some buf) true now ≡ some w)
      × (((w.status ≡ ok)
            × (r : Fetched K.State) × (read K layout later agent w.file w.store offset len true
                ≡ some r)
            × (r.actual_len ≡ len)
            × (r.out ≡ take len buf))
          ⊎ ((w.status ≡ internal_error) × Refused K s w.store))
  read-after-write =
      let (w, e, d) = write-WriteDone K layout f s v offset len buf enough now in
      (
        w,
        e,
        elim d.outcome [
          | inl k ↦ (let (r, e2, n, out) = read_back w d k in inl (k.status, r, e2, n, out))
          | inr bad ↦ inr bad
        ],
      )
