-- ===== src/Interop/ControlPlane/Tokens.antt =====
-- interop/control_plane.py: which tokens a set-up installs.
use lumencast_py.Prelude.{
  String, true, false, Option, none, some, [], ◌∷◌, ◌≡◌, ◌≢◌, refl, sym, ap, ◌∙◌, ◌⊎◌, inl, inr,
  str_eq, arith, eq_iff, Bool-cases,
}
use lumencast_py.Prelude.Dict.{Dict, get, put, get-put}
use lumencast_py.Json.{Json, null, bool, int, real, text, arr, obj, Fields, to_dict}
use lumencast_py.Protocol.Types.{Role}
use lumencast_py.Server.Auth.{Identity}
use lumencast_py.Server.Auth.StaticTokens
use lumencast_py.Interop.ControlPlane.{
  placeholder_role, set_token, install_one, install_each, install_tokens,
}

-- the request gives text `t` for placeholder `p`
abbrev pub Given : Dict Json → String → String → Type 0
Given [] p t = ⊥
Given ((q, v) ∷ raw) p t = ((q ≡ p) × (v ≡ text t)) ⊎ Given raw p t

-- A token that the request gave for a placeholder with a role, and the identity it stands for.
pub record Installed (raw : Dict Json) (t : String) (who : Identity) : Type 0 where
  pub placeholder : String
  pub role : Role
  pub recognised : placeholder_role placeholder ≡ some role
  pub valid : placeholder ≢ "$TOKEN_INVALID"
  pub identity : who ≡ record { subject = placeholder; role = some role; paths = [] }
  pub given : Given raw placeholder t

-- what one entry can add
record Added (p : String) (value : Json) (t : String) (who : Identity) : Type 0 where
  role : Role
  recognised : placeholder_role p ≡ some role
  valid : p ≢ "$TOKEN_INVALID"
  identity : who ≡ record { subject = p; role = some role; paths = [] }
  value_of : value ≡ text t

same_identity : (a b : Identity) → some a ≡ some b → b ≡ a
same_identity a b h = cc

same_text : (a b : String) → str_eq a b ≡ true → a ≡ b
same_text a b h = (eq_iff a b).0 h

other_text : (a b : String) → str_eq a b ≡ false → a ≢ b
other_text a b h e = ground (arith, eq_iff a b, h, e)

nothing_known {ℓ} : {A : Type ℓ} (t : String) (who : Identity) → get t [] ≡ some who → A
unfolding get
nothing_known t who h = cc

set_token_lem :
    (p v t : String) (o : Option Role) (auth : Dict Identity) (who : Identity)
    → placeholder_role p ≡ o
    → p ≢ "$TOKEN_INVALID"
    → get t (set_token p o v auth) ≡ some who
    → Added p (text v) t who ⊎ (get t auth ≡ some who)
unfolding set_token StaticTokens.set
set_token_lem p v t none auth who e ne h = inr h
set_token_lem p v t (some r) auth who e ne h =
    let it : Identity = record { subject = p; role = some r; paths = [] } in
    elim (Bool-cases (str_eq v t)) [
      | inl same ↦
          let set : get t (put v it auth) ≡ some it = ground (arith, get-put v t it auth, same) in
          inl (record {
            role = r;
            recognised = e;
            valid = ne;
            identity = same_identity it who (sym set ∙ h);
            value_of = ap text (same_text v t same);
          })
      | inr other ↦
          let kept : get t (put v it auth) ≡ get t auth =
            ground (arith, get-put v t it auth, other) in
          inr (sym kept ∙ h)
    ]

install_one_lem :
    (p : String) (value : Json) (t : String) (auth : Dict Identity) (who : Identity)
    → get t (install_one p value auth) ≡ some who
    → Added p value t who ⊎ (get t auth ≡ some who)
unfolding install_one
install_one_lem p (text v) t auth who h = elim (Bool-cases (str_eq p "$TOKEN_INVALID")) [
  | inl bad ↦ inr (rw bad at h)
  | inr good ↦ elim (Bool-cases (str_eq v "")) [
    | inl empty ↦ inr (rw empty at (rw good at h))
    | inr filled ↦
        set_token_lem p v t (placeholder_role p) auth who refl (other_text p "$TOKEN_INVALID" good)
          (rw filled at (rw good at h))
  ]
]
install_one_lem p null t auth who h = inr h
install_one_lem p (bool b) t auth who h = inr h
install_one_lem p (int n) t auth who h = inr h
install_one_lem p (real x) t auth who h = inr h
install_one_lem p (arr xs) t auth who h = inr h
install_one_lem p (obj fs) t auth who h = inr h

-- one more entry in front of those that were given
widen :
    (q : String) (v : Json) (raw : Dict Json) (t : String) (who : Identity)
    → Installed raw t who
    → Installed ((q, v) ∷ raw) t who
widen q v raw t who i = record {
  placeholder = i.placeholder;
  role = i.role;
  recognised = i.recognised;
  valid = i.valid;
  identity = i.identity;
  given = inr i.given;
}

install_each_lem :
    (raw : Dict Json) (auth : Dict Identity) (t : String) (who : Identity)
    → get t (install_each raw auth) ≡ some who
    → Installed raw t who ⊎ (get t auth ≡ some who)
unfolding install_each
install_each_lem [] auth t who h = inr h
install_each_lem ((p, value) ∷ raw) auth t who h =
    elim (install_each_lem raw (install_one p value auth) t who h) [
      | inl later ↦ inl (widen p value raw t who later)
      | inr before ↦ elim (install_one_lem p value t auth who before) [
        | inl a ↦ inl (record {
          placeholder = p;
          role = a.role;
          recognised = a.recognised;
          valid = a.valid;
          identity = a.identity;
          given = inl (refl, a.value_of);
        })
        | inr old ↦ inr old
      ]
    ]

-- Whichever tokens were known before: a token that the authenticator knows after a set-up was
-- given in its request for one of the four placeholders, never for `$TOKEN_INVALID`, and stands
-- for the placeholder's role without path restrictions.
pub install_tokens-Installed :
    (raw : Fields) (auth : Dict Identity) (t : String) (who : Identity)
    → StaticTokens.authenticate (install_tokens (some (obj raw)) auth) t ≡ some who
    → Installed (to_dict raw) t who
unfolding install_tokens StaticTokens.authenticate StaticTokens.reset
install_tokens-Installed raw auth t who h = elim (install_each_lem (to_dict raw) [] t who h) [
  | inl given ↦ given
  | inr old ↦ nothing_known t who old
]
