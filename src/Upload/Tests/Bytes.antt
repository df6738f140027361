-- ===== src/Upload/Tests/Bytes.antt =====
-- Runs of the yEnc loop and of the split of newsgroups.
use loon_agent.Prelude.{◌≢◌, ◌⊎◌, all, codes, ◌≡◌, refl, true, false, [], ◌∷◌, arith, Bytes}
use loon_agent.Upload.Newsgroups.{split_nntp_groups, valid_groups, is_valid_newsgroup_name}
use loon_agent.Upload.Newsgroups.Split.{named_in, split_nntp_groups_lem}
use loon_agent.Upload.Yenc.{yenc_body}
use loon_agent.Upload.Yenc.Decode.{yenc_decode, yenc_decode-yenc_body}
use loon_agent.Upload.Yenc.Lines.{is_article_body, yenc_body-is_article_body}

-- Bytes that become "." at the start of a line, NUL, LF, CR and "=", and one that stays.
abbrev critical : Bytes
critical = 4 ∷ 214 ∷ 224 ∷ 227 ∷ 19 ∷ 0 ∷ []

yenc_test :
    yenc_body 0 critical ≡ 61 ∷ 110 ∷ 61 ∷ 64 ∷ 61 ∷ 74 ∷ 61 ∷ 77 ∷ 61 ∷ 125 ∷ 42 ∷ 13 ∷ 10 ∷ []
unfolding yenc_body
yenc_test = refl

yenc_decode-yenc_body_example : yenc_decode false (yenc_body 0 critical) ≡ critical
yenc_decode-yenc_body_example = yenc_decode-yenc_body 0 critical refl

yenc_body-is_article_body_example : is_article_body false 0 (yenc_body 0 critical) ≡ true
yenc_body-is_article_body_example = yenc_body-is_article_body 0 critical (omega arith)

-- A name that starts with a dot is dropped.
split_test : split_nntp_groups (codes "alt.a, .b\nalt-c") ≡ codes "alt.a" ∷ codes "alt-c" ∷ []
unfolding split_nntp_groups valid_groups is_valid_newsgroup_name
split_test = refl

split_nntp_groups_lem_example :
    ((split_nntp_groups (codes "alt.a, .b") ≡ named_in (codes "alt.a, .b"))
      × (named_in (codes "alt.a, .b") ≢ [])
      × (all is_valid_newsgroup_name (split_nntp_groups (codes "alt.a, .b")) ≡ true))
    ⊎ ((named_in (codes "alt.a, .b") ≡ [])
        × (split_nntp_groups (codes "alt.a, .b") ≡ codes "alt.a, .b" ∷ []))
split_nntp_groups_lem_example = split_nntp_groups_lem (codes "alt.a, .b")
