-- ===== src/Attachments/Chunks.antt =====
-- The loop over the chunks of an upload, in `save_attachment` of
-- backend/src/incident_desk/services/attachments.py.
use incident_desk.Prelude.{
  ℕ, ◌+◌, ◌≤◌, leb, ◌≡◌, refl, ap, String, concat, size, size-concat, none, some, List, [], ◌∷◌,
  arith, if◌then◌else◌,
}
use Prim.Native.String.{[], ◌∷◌}
use incident_desk.Attachments.{write_chunks}

-- the bytes of an upload in one piece
abbrev pub joined : List String → String
joined [] = ""
joined (c ∷ cs) = concat c (joined cs)

concat_nil : (s : String) → concat s "" ≡ s
unfolding concat
concat_nil [] = refl
concat_nil (c ∷ s) = ap (λ r. c ∷ r) (concat_nil s)

concat_assoc : (s t u : String) → concat (concat s t) u ≡ concat s (concat t u)
unfolding concat
concat_assoc [] t u = refl
concat_assoc (c ∷ s) t u = ap (λ r. c ∷ r) (concat_assoc s t u)

module _ (limit : ℕ) where
  -- The loop writes all the bytes where they fit in what is left of the limit, and fails where they
  -- do not, however they are cut into chunks.
  pub write_chunks-joined :
      (cs : List String) (n : ℕ) (w : String)
      → n ≤ limit
      → write_chunks limit cs n w ≡ (
          if leb (n + size (joined cs)) limit
          then some (concat w (joined cs), n + size (joined cs))
          else none)
  unfolding write_chunks
  write_chunks-joined [] n w h = rw (concat_nil w) (ground arith)
  write_chunks-joined (c ∷ cs) n w h = ground (
    arith,
    write_chunks-joined cs (n + size c) (concat w c),
    concat_assoc w c (joined cs),
    size-concat c (joined cs),
  )
