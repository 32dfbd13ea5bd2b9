-- ===== src/Proxies/Spoofing.antt =====
-- A client cannot choose its own address (internal/gateway/trusted_proxy.go).
use Prim.Native.String.{[] as no_text, ◌∷◌ as ◌+∷◌, ◌++◌ as join}
use Prim.Native.Char.{Char, code}
use text.Mathlib.TextLemmas.{nil-append, cons-append, cons≢nil}
use maybe_dont.Prelude.{
  String, ◌≡◌, refl, ap, ◌∙◌, Bool, false, ◌==◌, not, List, [], ◌∷◌, ◌++◌, some, inl, inr,
  Bool-cases, select, eqb, eq_iff,
}
use maybe_dont.Proxies.{
  Net, TrustedProxyChecker, split_commas, split_step, trimmed, clean_ips, last_untrusted, choose_ip,
  extract_client_ip,
}

abbrev comma_char : Char
comma_char = ","

comma_first : (b : String) → join "," b ≡ comma_char +∷ b
comma_first b = cons-append comma_char "" b ∙ ap (λ t. comma_char +∷ t) (nil-append b)

split_commas-some : (s : String) → (w : String) × (ws : List String) × (split_commas s ≡ w ∷ ws)
unfolding split_commas
split_commas-some no_text = ("", [], refl)
split_commas-some (c +∷ s) =
    let (w, ws, e) = split_commas-some s in
    elim (Bool-cases (eqb (code c) 44)) [
      | inl k ↦ ("", w ∷ ws, rw (e, k) refl)
      | inr k ↦ (c +∷ w, ws, rw (e, k) refl)
    ]

step-append :
    (c : Char) (xs ys : List String)
    → (w : String) × (ws : List String) × (xs ≡ w ∷ ws)
    → split_step c (xs ++ ys) ≡ split_step c xs ++ ys
step-append c xs ys (w, ws, e) = elim (Bool-cases (eqb (code c) 44)) [
  | inl k ↦ rw (e, k) refl
  | inr k ↦ rw (e, k) refl
]

split_commas-comma :
    (a b : String) → split_commas (join a (join "," b)) ≡ split_commas a ++ split_commas b
unfolding split_commas
split_commas-comma no_text b =
    ap split_commas (nil-append (join "," b) ∙ comma_first b)
    ∙ comma (split_commas b) (split_commas-some b)
  where
    comma :
        (xs : List String)
        → (w : String) × (ws : List String) × (xs ≡ w ∷ ws)
        → split_step comma_char xs ≡ "" ∷ xs
    comma xs (w, ws, e) = rw e refl
split_commas-comma (c +∷ s) b =
    ap split_commas (cons-append c s (join "," b))
    ∙ ap (split_step c) (split_commas-comma s b)
    ∙ step-append c (split_commas s) (split_commas b) (split_commas-some s)

trimmed-append :
    (net : Net) (xs ys : List String) → trimmed net (xs ++ ys) ≡ trimmed net xs ++ trimmed net ys
trimmed-append net [] ys = refl
trimmed-append net (x ∷ xs) ys = ap (◌∷◌ (net.trim_space x)) (trimmed-append net xs ys)

select-append :
    {A : Type 0} (p : A → Bool) (xs ys : List A) → select p (xs ++ ys) ≡ select p xs ++ select p ys
select-append p [] ys = refl
select-append p (x ∷ xs) ys = elim (Bool-cases (p x)) [
  | inl e ↦ rw e (ap (◌∷◌ x) (select-append p xs ys))
  | inr e ↦ rw e (select-append p xs ys)
]

clean_ips-comma :
    (net : Net) (a b : String)
    → clean_ips net (join a (join "," b)) ≡ clean_ips net a ++ clean_ips net b
unfolding clean_ips
clean_ips-comma net a b =
    ap (λ ws. select (λ w. not (w == "")) (trimmed net ws)) (split_commas-comma a b)
    ∙ ap (select (λ w. not (w == ""))) (trimmed-append net (split_commas a) (split_commas b))
    ∙ select-append (λ w. not (w == "")) (trimmed net (split_commas a)) _

last_untrusted-append :
    (net : Net) (c : TrustedProxyChecker) (xs ys : List String) (ip : String)
    → last_untrusted net c ys ≡ some ip
    → last_untrusted net c (xs ++ ys) ≡ some ip
unfolding last_untrusted
last_untrusted-append net c [] ys ip h = h
last_untrusted-append net c (x ∷ xs) ys ip h = rw (last_untrusted-append net c xs ys ip h) refl

choose_found :
    (net : Net) (c : TrustedProxyChecker) (otherwise : String) (ips : List String) (ip : String)
    → c.trust_all ≡ false
    → last_untrusted net c ips ≡ some ip
    → choose_ip net c otherwise ips ≡ ip
unfolding last_untrusted
choose_found net c otherwise [] ip t h = cc
choose_found net c otherwise (x ∷ xs) ip t h = rw (t, h) refl

cons-some : (c : Char) (s : String) → (c +∷ s == "") ≡ false
cons-some c s = elim (Bool-cases (c +∷ s == "")) [
  | inl e ↦ absurd (cons≢nil ((eq_iff (c +∷ s) "").0 e))
  | inr e ↦ e
]

joined_some : (a b : String) → (join a (join "," b) == "") ≡ false
joined_some no_text b =
    ap (λ s. s == "") (nil-append (join "," b) ∙ comma_first b) ∙ cons-some comma_char b
joined_some (c +∷ s) b =
    ap (λ t. t == "") (cons-append c s (join "," b)) ∙ cons-some c (join s (join "," b))

-- With trusted proxies configured, a client behind them cannot choose its own address: whatever it
-- puts before a header in which some address is not trusted, the same address is extracted.
pub extract_client_ip_ignores_prefix :
    (net : Net) (c : TrustedProxyChecker) (extra xff x_real_ip direct ip : String)
    → c.trust_all ≡ false
    → (xff == "") ≡ false
    → last_untrusted net c (clean_ips net xff) ≡ some ip
    → (extract_client_ip net c (join extra (join "," xff)) x_real_ip direct ≡ ip)
      × (extract_client_ip net c xff x_real_ip direct ≡ ip)
unfolding extract_client_ip
extract_client_ip_ignores_prefix net c extra xff x_real_ip direct ip t e h = (
  rw (joined_some extra xff, clean_ips-comma net extra xff)
      (choose_found net c _ (clean_ips net extra ++ clean_ips net xff) ip t
        (last_untrusted-append net c (clean_ips net extra) (clean_ips net xff) ip h)),
  rw e (choose_found net c _ (clean_ips net xff) ip t h),
)
