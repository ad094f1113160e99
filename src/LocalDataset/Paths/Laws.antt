-- ===== src/LocalDataset/Paths/Laws.antt =====
-- Normal paths of frontend/src/lib/localDataset.ts.
use mathlib.Core.List.{reverse, reverse-cons, reverse-reverse}
use my_paraview_web.Common.{
  neither, ℕ, ◌≡◌, refl, sym, ap, ◌∙◌, subst, false, ◌||◌, List, [], ◌∷◌, ◌++◌, is_empty, ◌==◌,
  append_assoc, append-nil, All, All-append, either,
}
use my_paraview_web.Common.Eq.{Text, codes, ◌===◌, Units_eq}
use my_paraview_web.LocalDataset.Paths.{
  with_slashes, split_from, tail, push_segments, join, normalize_path,
}

-- a character that ends no piece of a path
pub record IsPlain (c : ℕ) : Type 0 where
  pub no_slash : (c == b'/') ≡ false
  pub no_backslash : (c == b'\\') ≡ false

-- a piece that stays in a path
pub record IsSegment (s : Text) : Type 0 where
  pub full : is_empty s ≡ false
  pub no_dot : (s === codes ".") ≡ false
  pub no_dots : (s === codes "..") ≡ false
  pub plain : All IsPlain s

abbrev NoBackslash : ℕ → Type 0
NoBackslash c = (c == b'\\') ≡ false

with_slashes-NoBackslash : (path : Text) → All NoBackslash (with_slashes path)
with_slashes-NoBackslash [] = tt
with_slashes-NoBackslash (c ∷ cs) =
    (either NoBackslash (c == b'\\') b'/' c (λ h. refl) (λ h. h), with_slashes-NoBackslash cs)

split_from-IsPlain :
    (piece cs : Text)
    → All IsPlain piece
    → All NoBackslash cs
    → All (All IsPlain) (split_from piece cs)
unfolding split_from
split_from-IsPlain piece [] p h = (p, tt)
split_from-IsPlain piece (c ∷ cs) p (n, h) =
    either (All (All IsPlain)) (c == b'/') (piece ∷ split_from [] cs)
      (split_from (piece ++ c ∷ []) cs) (λ slash. (p, split_from-IsPlain [] cs tt h))
      (λ other.
        split_from-IsPlain (piece ++ c ∷ []) cs
          (All-append IsPlain piece (c ∷ []) p (record { no_slash = other; no_backslash = n }, tt))
          h)

tail-IsSegment : (stack : List Text) → All IsSegment stack → All IsSegment (tail stack)
unfolding tail
tail-IsSegment [] h = tt
tail-IsSegment (s ∷ ss) (_, h) = h

push_segments-IsSegment :
    (stack ss : List Text)
    → All IsSegment stack
    → All (All IsPlain) ss
    → All IsSegment (push_segments stack ss)
unfolding push_segments
push_segments-IsSegment stack [] h k = h
push_segments-IsSegment stack (s ∷ ss) h (p, k) =
    either (All IsSegment) (is_empty s || s === codes ".") (push_segments stack ss) _
      (λ skipped. push_segments-IsSegment stack ss h k)
      (λ kept.
        either (All IsSegment) (s === codes "..") (push_segments (tail stack) ss)
          (push_segments (s ∷ stack) ss)
          (λ up. push_segments-IsSegment (tail stack) ss (tail-IsSegment stack h) k)
          (λ name.
            let (full, no_dot) = neither (is_empty s) (s === codes ".") kept in
            push_segments-IsSegment (s ∷ stack) ss
              (record { full = full; no_dot = no_dot; no_dots = name; plain = p }, h) k))

-- Segments are pushed as they are.
push_segments-segments :
    (stack ss : List Text) → All IsSegment ss → push_segments stack ss ≡ reverse ss ++ stack
unfolding push_segments
push_segments-segments stack [] h = refl
push_segments-segments stack (s ∷ ss) (i, h) =
    rw (i.full, i.no_dot, i.no_dots)
      (push_segments-segments (s ∷ stack) ss h
        ∙ sym (append_assoc (reverse ss) (s ∷ []) stack)
        ∙ ap (◌++ stack) (sym (reverse-cons s ss)))

reverse-IsSegment : (ss : List Text) → All IsSegment ss → All IsSegment (reverse ss)
reverse-IsSegment [] h = tt
reverse-IsSegment (s ∷ ss) (i, h) =
    subst (All IsSegment) (sym (reverse-cons s ss))
      (All-append IsSegment (reverse ss) (s ∷ []) (reverse-IsSegment ss h) (i, tt))

with_slashes-plain :
    (s rest : Text) → All IsPlain s → with_slashes (s ++ rest) ≡ s ++ with_slashes rest
with_slashes-plain [] rest h = refl
with_slashes-plain (c ∷ cs) rest (p, h) =
    rw p.no_backslash (ap (c ∷◌) (with_slashes-plain cs rest h))

with_slashes-join : (ss : List Text) → All IsSegment ss → with_slashes (join ss) ≡ join ss
unfolding join
with_slashes-join [] h = refl
with_slashes-join (s ∷ []) (i, h) =
    subst (λ t. with_slashes t ≡ t) (append-nil s) (with_slashes-plain s [] i.plain)
with_slashes-join (s ∷ t ∷ ss) (i, h) =
    with_slashes-plain s (b'/' ∷ join (t ∷ ss)) i.plain
    ∙ ap (λ r. s ++ b'/' ∷ r) (with_slashes-join (t ∷ ss) h)

split_from-plain :
    (piece s rest : Text)
    → All IsPlain s
    → split_from piece (s ++ rest) ≡ split_from (piece ++ s) rest
unfolding split_from
split_from-plain piece [] rest h = ap (λ p. split_from p rest) (sym (append-nil piece))
split_from-plain piece (c ∷ cs) rest (p, h) = rw p.no_slash (
    split_from-plain (piece ++ c ∷ []) cs rest h
    ∙ ap (λ p. split_from p rest) (append_assoc piece (c ∷ []) cs))

split_from-join :
    (s : Text) (ss : List Text) → All IsSegment (s ∷ ss) → split_from [] (join (s ∷ ss)) ≡ s ∷ ss
unfolding split_from join
split_from-join s [] (i, h) =
    subst (λ t. split_from [] t ≡ s ∷ []) (append-nil s) (split_from-plain [] s [] i.plain)
split_from-join s (t ∷ ss) (i, h) =
    split_from-plain [] s (b'/' ∷ join (t ∷ ss)) i.plain ∙ ap (s ∷◌) (split_from-join t ss h)

normalize-join : (ss : List Text) → All IsSegment ss → normalize_path (join ss) ≡ join ss
unfolding normalize_path
normalize-join [] h = refl
normalize-join (s ∷ ss) h =
    ap (λ t. join (reverse (push_segments [] (split_from [] t)))) (with_slashes-join (s ∷ ss) h)
    ∙ ap (λ k. join (reverse (push_segments [] k))) (split_from-join s ss h)
    ∙ ap (λ k. join (reverse k))
        (push_segments-segments [] (s ∷ ss) h ∙ append-nil (reverse (s ∷ ss)))
    ∙ ap join (reverse-reverse (s ∷ ss))

-- A normal path is normal: normalizing it again changes nothing, whatever the path was.
pub normalize_path-normalize_path :
    (path : Text) → normalize_path (normalize_path path) ≡ normalize_path path
unfolding normalize_path
normalize_path-normalize_path path =
    let pieces = split_from-IsPlain [] (with_slashes path) tt (with_slashes-NoBackslash path) in
    let stack = push_segments [] (split_from [] (with_slashes path)) in
    normalize-join (reverse stack)
      (reverse-IsSegment stack (push_segments-IsSegment [] _ tt pieces))
