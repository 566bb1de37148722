-- ===== src/Config/Quotas.antt =====
-- config.go: the upload limits that Synapse's configuration has.
use mathlib.Core.List.{Permᴰ}
use synapse_media_worker.Base.{
  ℕ, slt64, ◌+◌, ◌≡◌, ◌≢◌, refl, List, [], ◌∷◌, Bytes, ok, Ensures, returned, bind-Ensures,
  Ensures-ok, Bool-cases, inl, inr, if◌then◌else◌,
}
use synapse_media_worker.Limits.{MediaUploadLimit, insert_limit, sort_limits}
use synapse_media_worker.Limits.Order.{IsLongestFirst, sort_limits-IsLongestFirst}
use synapse_media_worker.Synapse.{
  SynapseConfig, SynapseMediaUploadLimit, is_empty, parse_synapse_duration, parse_synapse_size,
}
use synapse_media_worker.Config.Validate.{limit_max_size_invalid, limit_time_period_invalid}
use synapse_media_worker.Config.Load.{
  named, read_limit, read_limits, fallback_uri, parse_media_upload_limits,
}
use synapse_media_worker.Config.Derive.{named-read}

-- Sorting keeps every limit, as often as it was there.
Permᴰ-same : (limits : List MediaUploadLimit) → Permᴰ limits limits
Permᴰ-same [] = Permᴰ.nil
Permᴰ-same (l ∷ limits) = Permᴰ.cons refl (Permᴰ-same limits)

insert_limit-Permᴰ :
    (l : MediaUploadLimit) (limits : List MediaUploadLimit)
    → Permᴰ (insert_limit l limits) (l ∷ limits)
unfolding insert_limit
insert_limit-Permᴰ l [] = Permᴰ-same (l ∷ [])
insert_limit-Permᴰ l (x ∷ limits) = elim (Bool-cases (slt64 l.window x.window)) [
  | inl lt ↦
      rw lt (Permᴰ.trans (Permᴰ.cons refl (insert_limit-Permᴰ l limits)) (Permᴰ.swap refl refl))
  | inr ge ↦ rw ge (Permᴰ-same (l ∷ x ∷ limits))
]

sort_limits-Permᴰ : (limits : List MediaUploadLimit) → Permᴰ (sort_limits limits) limits
unfolding sort_limits
sort_limits-Permᴰ [] = Permᴰ.nil
sort_limits-Permᴰ (l ∷ limits) =
    Permᴰ.trans (insert_limit-Permᴰ l (sort_limits limits))
      (Permᴰ.cons refl (sort_limits-Permᴰ limits))

-- A limit is what an entry of Synapse's configuration says, with the fallback as its page where the
-- entry has none.
pub record IsRead (fallback : Bytes) (raw : SynapseMediaUploadLimit) (l : MediaUploadLimit)
    : Type 0 where
  pub size : parse_synapse_size raw.max_size ≡ ok l.max_bytes
  pub period : parse_synapse_duration raw.time_period ≡ ok l.window
  pub own_page : raw.info_uri ≢ [] → l.info_uri ≡ raw.info_uri
  pub no_page : raw.info_uri ≡ [] → l.info_uri ≡ fallback
  pub upgrade : l.can_upgrade ≡ raw.can_upgrade

-- The limits of entries, one by one.
abbrev pub AreRead : Bytes → List SynapseMediaUploadLimit → List MediaUploadLimit → Type 0
AreRead fallback [] [] = Unit {0}
AreRead fallback [] (l ∷ limits) = ⊥
AreRead fallback (raw ∷ entries) [] = ⊥
AreRead fallback (raw ∷ entries) (l ∷ limits) =
    IsRead fallback raw l × AreRead fallback entries limits

page-own : (s t : Bytes) → s ≢ [] → (if is_empty s then t else s) ≡ s
unfolding is_empty
page-own [] t h = absurd (h refl)
page-own (c ∷ s) t h = refl

page-none : (s t : Bytes) → s ≡ [] → (if is_empty s then t else s) ≡ t
unfolding is_empty
page-none [] t h = refl
page-none (c ∷ s) t h = cc h

read_limit-IsRead :
    (fallback : Bytes) (i : ℕ) (raw : SynapseMediaUploadLimit)
    → Ensures (IsRead fallback raw) (read_limit fallback i raw)
unfolding read_limit
read_limit-IsRead fallback i raw =
    bind-Ensures (named (limit_max_size_invalid i) (parse_synapse_size raw.max_size)) _
      λ max_bytes read_max.
        bind-Ensures (named (limit_time_period_invalid i) (parse_synapse_duration raw.time_period))
          _
          λ window read_window. returned (record {
            size = named-read (limit_max_size_invalid i) _ max_bytes read_max;
            period = named-read (limit_time_period_invalid i) _ window read_window;
            own_page = page-own raw.info_uri fallback;
            no_page = page-none raw.info_uri fallback;
            upgrade = refl;
          })

read_limits-AreRead :
    (fallback : Bytes) (i : ℕ) (entries : List SynapseMediaUploadLimit)
    → Ensures (AreRead fallback entries) (read_limits fallback i entries)
unfolding read_limits
read_limits-AreRead fallback i [] = returned tt
read_limits-AreRead fallback i (raw ∷ entries) =
    bind-Ensures (read_limit fallback i raw) _ λ limit read_one.
      bind-Ensures (read_limits fallback (i + 1) entries) _ λ limits read_rest. returned (
        Ensures-ok (read_limit-IsRead fallback i raw) read_one,
        Ensures-ok (read_limits-AreRead fallback (i + 1) entries) read_rest,
      )

-- The limits of Synapse's configuration, in the order of their evaluation: the longest window first,
-- and each of them as its entry says.
pub record AreLimits (hs : SynapseConfig) (limits : List MediaUploadLimit) : Type 0 where
  pub longest_first : IsLongestFirst limits
  pub entries : List MediaUploadLimit
  pub are_read : AreRead (fallback_uri hs) hs.media_upload_limits entries
  pub same : Permᴰ limits entries

-- The limits of Synapse's configuration come longest window first, as their evaluation needs it, and
-- none is lost, added or changed: sorted in another way they are one by one those of the entries, each
-- with the size, the window and the flag of its entry, and with the entry's page or, where it has
-- none, Synapse's own.
pub parse_media_upload_limits-AreLimits :
    (hs : SynapseConfig) (limits : List MediaUploadLimit)
    → parse_media_upload_limits hs ≡ ok limits
    → AreLimits hs limits
unfolding parse_media_upload_limits
parse_media_upload_limits-AreLimits hs limits h =
    let all : Ensures (AreLimits hs) (parse_media_upload_limits hs) =
      bind-Ensures (read_limits (fallback_uri hs) 0 hs.media_upload_limits) _ λ entries read_all.
        returned (record {
          longest_first = sort_limits-IsLongestFirst entries;
          entries = entries;
          are_read =
              Ensures-ok (read_limits-AreRead (fallback_uri hs) 0 hs.media_upload_limits) read_all;
          same = sort_limits-Permᴰ entries;
        }) in
    Ensures-ok all h
