-- ===== src/SitNatCache/Invariant.antt =====
-- The invariant of the SIT and NAT cache: an entry is pinned exactly while it is referred to, and
-- `cur_size` counts the entries.
use hscfs.Base.{arith, ℕ, ◌^◌, ◌<◌, ◌≤◌, ◌≡◌, ◌≢◌, ◌⊎◌, refl, not, some, ◌==◌, ◌∙◌, nat_key}
use hscfs.Lru.Size.{size}
use hscfs.CacheManager.Invariant
use hscfs.SitNatCache.{SitNatCache, Entry}

pub record IsValid {Block : Type 0} (c : SitNatCache Block) : Type 0 where
  pub manager : Invariant.IsConsistent c.manager
  pub keyed : (k : ℕ) (p : Entry Block) → c.manager.index k ≡ some p → p.lpa ≡ k
  pub pinned :
      (k : ℕ) (p : Entry Block)
      → c.manager.index k ≡ some p
      → c.manager.replacer.key_states k ≡ some (not (p.ref_count == 0))
  pub counted : c.cur_size ≡ size c.manager.replacer
  pub word : c.cur_size < 2 ^ 64

-- What a replacement may do: nothing new is cached, and no entry that is referred to is lost.
pub record Keeps {Block : Type 0} (c c' : SitNatCache Block) : Type 0 where
  pub old : (k : ℕ) (p : Entry Block) → c'.manager.index k ≡ some p → c.manager.index k ≡ some p
  pub referred :
      (k : ℕ) (p : Entry Block)
      → c.manager.index k ≡ some p
      → p.ref_count ≢ 0
      → c'.manager.index k ≡ some p
  pub expect : c'.expect_size ≡ c.expect_size
  pub no_more : c'.cur_size ≤ c.cur_size

module _ {Block : Type 0} where
  pub Keeps-refl : (c : SitNatCache Block) → Keeps c c
  Keeps-refl c = record {
    old = λ k p h. h;
    referred = λ k p h ne. h;
    expect = refl;
    no_more = omega arith;
  }

  pub Keeps-trans : {a b c : SitNatCache Block} → Keeps a b → Keeps b c → Keeps a c
  Keeps-trans f g = record {
    old = λ k p h. f.old k p (g.old k p h);
    referred = λ k p h ne. g.referred k p (f.referred k p h ne) ne;
    expect = g.expect ∙ f.expect;
    no_more = omega (arith, f.no_more, g.no_more);
  }

  -- The cache is within its expected size, or nothing more can be replaced.
  abbrev pub IsTrimmed : SitNatCache Block → Type 0
  IsTrimmed c =
      (c.cur_size ≤ c.expect_size)
      ⊎ ((k : ℕ) (p : Entry Block) → c.manager.index k ≡ some p → p.ref_count ≢ 0)
