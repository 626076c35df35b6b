-- ===== src/Stream/Failed/Tests.antt =====
-- The round trip of failures at a concrete one.
use qxmpp.Common.{◌≡◌, refl, some}
use qxmpp.Xml.{Element}
use qxmpp.Stream.Failed.{
  is_no_condition, SmFailed, gone, condition_or_none, failed_from_dom, failed_to_xml,
  failed-round_trip,
}

abbrev gone_failure : SmFailed
gone_failure = record { error = some gone }

failed-round_trip_example :
    (el : Element) × (failed_to_xml gone_failure ≡ some el)
    × (failed_from_dom el ≡ some (record { error = some (condition_or_none gone_failure.error) }))
failed-round_trip_example = failed-round_trip gone_failure (unfold is_no_condition in refl)
