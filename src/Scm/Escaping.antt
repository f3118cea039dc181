-- ===== src/Scm/Escaping.antt =====
-- Escaped paths and their segments (backend/internal/scm/scm.go).
use ai_test_assistant.Prelude.{
  ◌≡◌, refl, ap, ◌∙◌, ℕ, inl, inr, false, Option, some, List, [], ◌∷◌, map, arith, All, Text,
  has_byte, split, extend, join, split-join, split-parts, ◌==◌, ok, Bool-cases,
}
use ai_test_assistant.Scm.Paths.{validate_repository_path, escape_path}

extend-plain :
    (c x : ℕ) (ts : List Text)
    → (x == c) ≡ false
    → All (λ t. has_byte c t ≡ false) ts
    → All (λ t. has_byte c t ≡ false) (extend x ts)
extend-plain c x [] e h = (ground (arith, e), tt)
extend-plain c x (t ∷ ts) e h = (ground (arith, e, h.0), h.1)

-- No part has the separator.
split-plain : (c : ℕ) (t : Text) → All (λ p. has_byte c p ≡ false) (split c t)
split-plain c [] = (refl, tt)
split-plain c (x ∷ t) = elim (Bool-cases (x == c)) [
  | inl e ↦ rw e (refl, split-plain c t)
  | inr e ↦ rw e (extend-plain c x (split c t) e (split-plain c t))
]

module _ (escape : Text → Text) (unescape : Text → Option Text)
    (unescape-escape : (t : Text) → unescape (escape t) ≡ some t)
    (escape_plain : (t : Text) → has_byte b'/' t ≡ false → has_byte b'/' (escape t) ≡ false) where
  map-plain :
      (ts : List Text)
      → All (λ t. has_byte b'/' t ≡ false) ts
      → All (λ t. has_byte b'/' t ≡ false) (map escape ts)
  map-plain [] h = tt
  map-plain (t ∷ ts) h = (escape_plain t (h.0), map-plain ts (h.1))

  map_unescape : (ts : List Text) → map unescape (map escape ts) ≡ map some ts
  map_unescape [] = refl
  map_unescape (t ∷ ts) = rw (unescape-escape t, map_unescape ts) refl

  split_escaped :
      (ts : List Text) (t : Text) (us : List Text)
      → ts ≡ t ∷ us
      → All (λ u. has_byte b'/' u ≡ false) ts
      → split b'/' (join b'/' ts) ≡ ts
  split_escaped [] t us e h = absurd (ground (arith, e))
  split_escaped (v ∷ vs) t us e h = split-join b'/' v vs (h.0) (h.1)

  -- For an escape that an unescape undoes and that adds no slash to a segment: `EscapePath` succeeds on a
  -- valid path, and the segments of what it returns, unescaped, are the segments of the path.
  pub escape_path_round_trip :
      (path : Text)
      → validate_repository_path path ≡ ok tt
      → (u : Text) × (escape_path escape path ≡ ok u)
        × (map unescape (split b'/' u) ≡ map some (split b'/' path))
  unfolding escape_path
  escape_path_round_trip path h =
      let parts = split-parts b'/' path in
      let same =
        split_escaped (map escape (split b'/' path)) (escape (parts.0)) (map escape (parts.1))
          (ap (map escape) (parts.2)) (map-plain (split b'/' path) (split-plain b'/' path)) in
      (
        join b'/' (map escape (split b'/' path)),
        rw h refl,
        ap (map unescape) same ∙ map_unescape (split b'/' path),
      )
