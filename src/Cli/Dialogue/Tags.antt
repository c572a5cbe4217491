-- ===== src/Cli/Dialogue/Tags.antt =====
-- utils.go: the tags that are read are a set.
use telephonist_agent.Base.{
  ◌≡◌, ◌≢◌, ◌↔◌, refl, Bytes, List, [], ◌∷◌, true, false, map, Bytes-discrete, ite, done, arith,
}
use telephonist_agent.Base.Sets.{contains, IsSetLike, add_to_set-IsSetLike, contains-add_to_set}
use telephonist_agent.Cli.Dialogue.{
  Console, space, trim, split_commas, read_string, add_tag, tags_of, read_tags,
}

add_tag-IsSetLike :
    (tags : List Bytes) (part : Bytes)
    → IsSetLike Bytes-discrete tags
    → IsSetLike Bytes-discrete (add_tag tags part)
unfolding add_tag
add_tag-IsSetLike tags [] s = s
add_tag-IsSetLike tags (c ∷ part) s = add_to_set-IsSetLike Bytes-discrete tags (c ∷ part) s

contains-add_tag :
    (tags : List Bytes) (part w : Bytes)
    → contains Bytes-discrete (add_tag tags part) w
      ≡ ite
          (Bytes-discrete part [])
          (contains Bytes-discrete tags w)
          (ite (Bytes-discrete part w) true (contains Bytes-discrete tags w))
unfolding add_tag
contains-add_tag tags [] w = ground arith
contains-add_tag tags (c ∷ part) w =
    ground (arith, contains-add_to_set Bytes-discrete tags (c ∷ part) w)

tags_of-IsSetLike :
    (tags parts : List Bytes)
    → IsSetLike Bytes-discrete tags
    → IsSetLike Bytes-discrete (tags_of tags parts)
unfolding tags_of
tags_of-IsSetLike tags [] s = s
tags_of-IsSetLike tags (part ∷ parts) s =
    tags_of-IsSetLike (add_tag tags (trim (32 ∷ 9 ∷ []) part)) parts
      (add_tag-IsSetLike tags (trim (32 ∷ 9 ∷ []) part) s)

contains-tags_of :
    (tags parts : List Bytes) (w : Bytes)
    → contains Bytes-discrete (tags_of tags parts) w
      ≡ ite
          (Bytes-discrete w [])
          (contains Bytes-discrete tags w)
          (elim (contains Bytes-discrete (map (trim (32 ∷ 9 ∷ [])) parts) w) [
            | true ↦ true
            | false ↦ contains Bytes-discrete tags w
          ])
unfolding tags_of contains
contains-tags_of tags [] w = ground arith
contains-tags_of tags (part ∷ parts) w =
    let part' = trim (32 ∷ 9 ∷ []) part in
    ground (arith, contains-tags_of (add_tag tags part') parts w, contains-add_tag tags part' w)

-- `readTags` reads one line. The tags that it gives are different from each other, and they are just
-- the parts of the trimmed line between its commas that are not empty once their spaces and tabs are
-- trimmed.
pub read_tags-set :
    (line : Bytes) (rest : Console)
    → (tags : List Bytes) × (read_tags (line ∷ rest) ≡ done (rest, tags))
      × IsSetLike Bytes-discrete tags
      × ((tag : Bytes)
          → (contains Bytes-discrete tags tag ≡ true) ↔ (
              (tag ≢ [])
              × (contains Bytes-discrete
                    (map (trim (32 ∷ 9 ∷ [])) (split_commas (trim space line)))
                    tag
                  ≡ true)))
unfolding read_tags read_string contains
read_tags-set line rest =
    let parts = split_commas (trim space line) in
    (
      tags_of [] parts,
      refl,
      tags_of-IsSetLike [] parts tt,
      λ tag. ground (arith, contains-tags_of [] parts tag),
    )
