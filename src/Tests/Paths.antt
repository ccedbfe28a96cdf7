-- ===== src/Tests/Paths.antt =====
-- A path that is parsed.
use faasten.Base.{◌≡◌, refl, List, [], ◌∷◌}
use faasten.Fs.Path.{dscrp, facet}
use faasten.Fs.Parser.{ok, parse}
use faasten.Fs.Parser.RoundTrip.{Segment, named, labelled, current, at, parse-written}
use faasten.Tests.Setup.{number_labels, doc_serde, admin}

abbrev later : List Segment
later = labelled "T,faasten" (0, 0) ∷ current ∷ named "fsutil" ∷ []

parse-written_example :
    parse "::home:<T,faasten>:%:fsutil:" admin
    ≡ ok (record { components = dscrp "home" ∷ facet (0, 0) ∷ facet (0, 0) ∷ dscrp "fsutil" ∷ [] })
unfolding faasten.Fs.Parser.label_in faasten.Fs.Parser.before_end
parse-written_example =
    parse-written 2 1 (at (named "home")) later admin
      ((tt, (refl, (refl, (refl, (refl, tt)))), refl, refl), refl)
      (
        (
          tt,
          (refl, (refl, (refl, (refl, (refl, (refl, (refl, (refl, (refl, tt))))))))),
          (refl, (refl, (refl, (refl, (refl, (refl, (refl, (refl, (refl, tt))))))))),
          refl,
        ),
        (tt, ((tt, (refl, (refl, (refl, (refl, (refl, (refl, tt)))))), refl, refl), tt)),
      )
