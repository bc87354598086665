-- ===== src/Boltstore/Summaries/Runs.antt =====
-- Three countries of a prefix.
use bgp_api.Base.{◌≡◌, refl, [], ◌∷◌}
use bgp_api.Golang.ByteSlice.{compare_bytes}
use bgp_api.Golang.Text.{codes}
use bgp_api.Boltstore.Summary.{Facet}
use bgp_api.Boltstore.Summaries.{Counts, compare_facets, insert_facet, sort_facets, ranked_facets}
use bgp_api.Boltstore.Summaries.Ranking.{exchange, ranked_facets-Reordered}
use bgp_api.Boltstore.Summaries.TopTen.{TopTen, ranked_facets-TopTen}

abbrev us : Facet
us = record { value = codes "US"; count = 7 }

abbrev de : Facet
de = record { value = codes "DE"; count = 7 }

abbrev fr : Facet
fr = record { value = codes "FR"; count = 9 }

abbrev three : Counts
three = us ∷ de ∷ fr ∷ []

three_ranked : ranked_facets three ≡ fr ∷ de ∷ us ∷ []
unfolding ranked_facets sort_facets insert_facet compare_facets compare_bytes
three_ranked = refl

ranked_facets-Reordered_example : ranked_facets three ≡ ranked_facets (de ∷ us ∷ fr ∷ [])
ranked_facets-Reordered_example = ranked_facets-Reordered (exchange us de (fr ∷ []))

ranked_facets-TopTen_example : TopTen three (ranked_facets three)
ranked_facets-TopTen_example = ranked_facets-TopTen three
