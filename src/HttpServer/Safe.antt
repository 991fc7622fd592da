-- ===== src/HttpServer/Safe.antt =====
-- No answer depends on a file whose name goes up in the directory tree.
use rtstream.Prelude.{
  ◌≡◌, refl, ap, Bool, false, ◌&&◌, not, List, [], ◌++◌, Option, none, some, Bool-cases, inl, inr,
  if◌then◌else◌,
}
use rtstream.Prelude.Text.{codes, contains, same_text}
use rtstream.Wire.Bytes.{Bytes}
use rtstream.HttpServer.{read_request, relative, handle_static, Handled, handle}

-- Two file systems with the same files under the root, but for names with two dots in a row.
abbrev pub Agree : Bytes → (Bytes → Option Bytes) → (Bytes → Option Bytes) → Type 0
Agree doc_root files files' =
    (rel : Bytes)
    → contains (codes "..") rel ≡ false
    → files (doc_root ++ rel) ≡ files' (doc_root ++ rel)

handle_static-Agree :
    (doc_root path : Bytes) (files files' : Bytes → Option Bytes)
    → Agree doc_root files files'
    → handle_static files doc_root path ≡ handle_static files' doc_root path
unfolding handle_static
handle_static-Agree doc_root path files files' same =
    elim (Bool-cases (contains (codes "..") (relative path))) [
      | inl up ↦ rw up refl
      | inr inside ↦ rw (inside, same (relative path) inside) refl
    ]

-- Whatever the request is, the answer is the same for two file systems that differ only in files
-- outside the root's prefix and in files whose names have `..` behind it: no such file is read.
pub handle-Agree :
    (doc_root input : Bytes) (has_ws : Bool) (files files' : Bytes → Option Bytes)
    → Agree doc_root files files'
    → handle files doc_root has_ws input ≡ handle files' doc_root has_ws input
unfolding handle
handle-Agree doc_root input has_ws files files' same =
    ap
      (λ (answer : Bytes → List Bytes). elim (read_request input) [
        | none ↦ Handled.closed []
        | some r ↦
            if r.upgrade && has_ws
            then Handled.adopted r.key
            else if not (same_text r.method (codes "GET"))
            then Handled.closed []
            else if same_text r.path (codes "/stream.mjpeg")
            then Handled.streamed
            else Handled.closed (answer r.path)
      ])
      (λ i. λ path. handle_static-Agree doc_root path files files' same i)
