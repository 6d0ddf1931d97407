-- ===== src/Tests/Paths.antt =====
-- Runs of the joining of paths.
use selenwright.Prelude.{
  ◌≡◌, refl, lit, ok, is_abs, clean, split, join, ◌==◌, has_prefix, join_path,
}
use selenwright.Safepath.{join_below}
use selenwright.Safepath.Inside.{IsBelow, IsPlainPath, join_below-IsBelow}

joins : join_below (lit "/a/b") (lit "c/../d") ≡ ok (lit "/a/b/d")
unfolding join_below clean split join join_path has_prefix ◌==◌ is_abs
joins = refl

join_below-IsBelow_example :
    IsBelow (lit "/a/b/d") (clean (lit "/a/b")) × IsPlainPath (lit "/a/b/d")
join_below-IsBelow_example =
    join_below-IsBelow (lit "/a/b") (lit "c/../d") (lit "/a/b/d") (unfold is_abs in refl) joins
