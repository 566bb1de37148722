-- ===== src/Multipart/Laws.antt =====
-- The announced length of a federation download is the length of what is written.
use synapse_media_worker.Base.{◌+◌, ◌*◌, ◌<◌, ◌≡◌, Bytes, length, length-append, two63, arith}
use synapse_media_worker.Multipart.{
  MultipartParts, fixed_overhead, content_length, write_body, multipart_fixed_n,
}

length-write_body :
    (p : MultipartParts) (body : Bytes)
    → length (write_body p body)
      ≡ length body
        + length p.content_type_line
        + length p.disposition_line
        + 3 * length p.boundary
        + 62
unfolding write_body
length-write_body p body = simp length-append (omega arith)

-- The Content-Length of a federation download is exactly the number of bytes of its body, for every
-- boundary and header line, as long as that number is a positive int64.
pub content_length-write_body :
    (p : MultipartParts) (body : Bytes)
    → length (write_body p body) < two63
    → content_length p (length body) ≡ length (write_body p body)
unfolding content_length
content_length-write_body p body h = omega (arith, length-write_body p body)

-- With a boundary of 32 characters the scaffolding takes the 156 bytes that Synapse assumes.
pub fixed_overhead_lem :
    (p : MultipartParts) → length p.boundary ≡ 32 → fixed_overhead p ≡ multipart_fixed_n
unfolding fixed_overhead
fixed_overhead_lem p h = omega arith
