-- ===== src/Submit/GitSync/Pairs.antt =====
-- The pairs of a connection string, and what is read of them.
use Prim.Native.Char.{Char, code}
use mathlib.Core.Path.{subst}
use runai_cli.Prelude.{
  ℕ, String, true, false, ◌&&◌, some, List, [], ◌∷◌, ◌++◌, All, Map, lookup, lookup-assign, split,
  codes, str_eq, eq_iff, ◌≡◌, ◌⊎◌, refl, sym, ap, ◌∙◌, inl, inr, Bool-cases, arith,
}
use runai_cli.Validate.Names.{First, Last}
use runai_cli.Submit.GitSync.{
  GitSync, is_quote, trim_left, trim_right, trim_quotes, add_argument, collect_arguments,
  git_sync_from_connection_string,
}
use runai_cli.Submit.GitSync.Arguments.{value_or, git_sync_from_connection_string-AreRead}

-- A single or a double quote.
abbrev pub IsQuote : ℕ → Type 0
IsQuote c = (c ≡ 39) ⊎ (c ≡ 34)

-- A text without the quotes at its ends.
pub record IsTrimmed (given text : List ℕ) : Type 0 where
  pub before : List ℕ
  pub after : List ℕ
  pub parts : given ≡ before ++ (text ++ after)
  pub quotes_before : All IsQuote before
  pub quotes_after : All IsQuote after
  pub first : ¬ (First IsQuote text)
  pub last : ¬ (Last IsQuote text)

is_quote_iff :
    (c : Char)
    → (is_quote c ≡ true → IsQuote (code c)) × (is_quote c ≡ false → ¬ (IsQuote (code c)))
unfolding is_quote
is_quote_iff c = (ground arith, ground arith)

trim_left_lem :
    (s : String)
    → (before : List ℕ) × (codes s ≡ before ++ codes (trim_left s))
      × All IsQuote before
      × ¬ (First IsQuote (codes (trim_left s)))
unfolding trim_left
trim_left_lem String.[] = ([], refl, tt, λ h. h)
trim_left_lem (String.◌∷◌ c s) = elim (Bool-cases (is_quote c)) [
  | inl e ↦
      let (before, q, all, first) = trim_left_lem s in
      rw e (code c ∷ before, ap (λ t. code c ∷ t) q, ((is_quote_iff c).0 e, all), first)
  | inr e ↦ rw e ([], refl, tt, (is_quote_iff c).1 e)
]

Last-cons_inv :
    (c : ℕ) (w : List ℕ) → Last IsQuote (c ∷ w) → ((w ≡ []) × IsQuote c) ⊎ Last IsQuote w
Last-cons_inv c [] h = inl (refl, h)
Last-cons_inv c (d ∷ w) h = inr h

codes_nil : (s : String) → codes s ≡ [] → s ≡ ""
codes_nil String.[] e = refl
codes_nil (String.◌∷◌ c s) e = absurd (cc e)

trim_right_lem :
    (s : String)
    → (after : List ℕ) × (codes s ≡ codes (trim_right s) ++ after)
      × All IsQuote after
      × ¬ (Last IsQuote (codes (trim_right s)))
      × (¬ (First IsQuote (codes s)) → ¬ (First IsQuote (codes (trim_right s))))
unfolding trim_right
trim_right_lem String.[] = ([], refl, tt, λ h. h, λ h. h)
trim_right_lem (String.◌∷◌ c s) =
    let (after, q, all, last, first) = trim_right_lem s in
    elim (Bool-cases (is_quote c && str_eq (trim_right s) "")) [
      | inl e ↦
          let quote : is_quote c ≡ true = ground arith in
          let end : trim_right s ≡ "" = ground (arith, eq_iff (trim_right s) "") in
          rw e (
            code c ∷ after,
            ap (λ t. code c ∷ t) (q ∙ ap (λ t. codes t ++ after) end),
            ((is_quote_iff c).0 quote, all),
            λ h. h,
            λ h k. k,
          )
      | inr e ↦ rw e (
        after,
        ap (λ t. code c ∷ t) q,
        all,
        λ h. elim (Last-cons_inv (code c) (codes (trim_right s)) h) [
          | inl (nil, quote) ↦
              let end = codes_nil (trim_right s) nil in
              let plain : is_quote c ≡ false = ground (arith, eq_iff (trim_right s) "") in
              (is_quote_iff c).1 plain quote
          | inr k ↦ last k
        ],
        λ h k. h k,
      )
    ]

trim_quotes-IsTrimmed : (s : String) → IsTrimmed (codes s) (codes (trim_quotes s))
unfolding trim_quotes
trim_quotes-IsTrimmed s =
    let (before, q, quotes, first) = trim_left_lem s in
    let (after, r, more, last, still) = trim_right_lem (trim_left s) in
    record {
      before = before;
      after = after;
      parts = q ∙ ap (λ t. before ++ t) r;
      quotes_before = quotes;
      quotes_after = more;
      first = still first;
      last = last;
    }

-- A parameter that is a pair of this key.
abbrev pub IsPairOf : String → List String → Type 0
IsPairOf key parts = (given : String) × (parts ≡ key ∷ given ∷ [])

-- No parameter is a pair of this key.
abbrev pub IsMissing : String → List String → Type 0
IsMissing key parameters = All (λ p. ¬ (IsPairOf key (split b'=' p))) parameters

-- The last pair of the key has this value, without the quotes at its ends.
pub record IsLastValue (key : String) (parameters : List String) (value : String) : Type 0 where
  pub before : List String
  pub parameter : String
  pub after : List String
  pub placed : parameters ≡ before ++ parameter ∷ after
  pub given : String
  pub pair : split b'=' parameter ≡ key ∷ given ∷ []
  pub last : IsMissing key after
  pub trimmed : IsTrimmed (codes given) (codes value)

abbrev pub IsReadAs : String → List String → String → Type 0
IsReadAs key parameters value =
    IsLastValue key parameters value ⊎ (IsMissing key parameters × (value ≡ ""))

-- What one parameter does to the value of a key.
abbrev IsAdded : Map String → String → List String → Type 0
IsAdded m key parts =
    ((given : String) × (parts ≡ key ∷ given ∷ [])
      × (lookup (add_argument m parts) key ≡ some (trim_quotes given)))
    ⊎ (¬ (IsPairOf key parts) × (lookup (add_argument m parts) key ≡ lookup m key))

add_argument-IsAdded : (m : Map String) (key : String) (parts : List String) → IsAdded m key parts
unfolding add_argument
add_argument-IsAdded m key [] = inr (λ (v, e). cc e, refl)
add_argument-IsAdded m key (a ∷ []) = inr (λ (v, e). cc e, refl)
add_argument-IsAdded m key (a ∷ (b ∷ (c ∷ r))) = inr (λ (v, e). cc e, refl)
add_argument-IsAdded m key (name ∷ (given ∷ [])) = elim (Bool-cases (str_eq name key)) [
  | inl e ↦
      let same = (eq_iff name key).0 e in
      inl (
        given,
        ap (λ n. n ∷ given ∷ []) same,
        lookup-assign m name key (trim_quotes given) ∙ rw e refl,
      )
  | inr e ↦ inr (
    λ (v, q). cc (e, (eq_iff name key).1 (cc q)),
    lookup-assign m name key (trim_quotes given) ∙ rw e refl,
  )
]

collect_arguments-lookup :
    (m : Map String) (key : String) (parameters : List String)
    → ((value : String) × (lookup (collect_arguments m parameters) key ≡ some value)
        × IsLastValue key parameters value)
      ⊎ (IsMissing key parameters × (lookup (collect_arguments m parameters) key ≡ lookup m key))
unfolding collect_arguments
collect_arguments-lookup m key [] = inr (tt, refl)
collect_arguments-lookup m key (p ∷ ps) =
    elim (collect_arguments-lookup (add_argument m (split b'=' p)) key ps) [
      | inl (value, e, h) ↦ inl (
        value,
        e,
        record {
          before = p ∷ h.before;
          parameter = h.parameter;
          after = h.after;
          placed = ap (λ t. p ∷ t) h.placed;
          given = h.given;
          pair = h.pair;
          last = h.last;
          trimmed = h.trimmed;
        },
      )
      | inr (missing, e) ↦ elim (add_argument-IsAdded m key (split b'=' p)) [
        | inl (given, pair, q) ↦ inl (
          trim_quotes given,
          e ∙ q,
          record {
            before = [];
            parameter = p;
            after = ps;
            placed = refl;
            given = given;
            pair = pair;
            last = missing;
            trimmed = trim_quotes-IsTrimmed given;
          },
        )
        | inr (other, q) ↦ inr ((other, missing), e ∙ q)
      ]
    ]

value-IsReadAs :
    (key : String) (parameters : List String) {value : String}
    → value ≡ value_or (collect_arguments [] parameters) key ""
    → IsReadAs key parameters value
unfolding lookup
value-IsReadAs key parameters q = elim (collect_arguments-lookup [] key parameters) [
  | inl (v, e, h) ↦ inl (subst (IsLastValue key parameters) (sym (q ∙ rw (e, value_or) refl)) h)
  | inr (missing, e) ↦ inr (missing, q ∙ rw (e, value_or) refl)
]

-- The seven fields that the parameters name.
pub record IsRead (parameters : List String) (gs : GitSync) : Type 0 where
  pub repository : IsReadAs "source" parameters gs.repository
  pub branch : IsReadAs "branch" parameters gs.branch
  pub revision : IsReadAs "rev" parameters gs.revision
  pub image : IsReadAs "image" parameters gs.image
  pub username : IsReadAs "username" parameters gs.username
  pub password : IsReadAs "password" parameters gs.password
  pub directory : IsReadAs "target" parameters gs.directory

-- Of the parameters of a connection string, between its commas, those that "=" splits into two parts
-- are pairs of a key and a value. Each of the seven fields that is read holds the value of the last
-- pair of its key, without the quotes at its ends, and no text if there is no such pair.
pub git_sync_from_connection_string-IsRead :
    (connection : String) {gs : GitSync}
    → git_sync_from_connection_string connection ≡ some gs
    → IsRead (split b',' connection) gs
git_sync_from_connection_string-IsRead connection h =
    let read = git_sync_from_connection_string-AreRead connection h in
    let parameters = split b',' connection in
    record {
      repository = value-IsReadAs "source" parameters read.repository;
      branch = value-IsReadAs "branch" parameters read.branch;
      revision = value-IsReadAs "rev" parameters read.revision;
      image = value-IsReadAs "image" parameters read.image;
      username = value-IsReadAs "username" parameters read.username;
      password = value-IsReadAs "password" parameters read.password;
      directory = value-IsReadAs "target" parameters read.directory;
    }
