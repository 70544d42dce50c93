-- ===== src/Lib.antt =====
-- Odograph records positions and turns them into trips. This library models the parts of the
-- program that decide: what the detector makes of a track, how it updates the stored trips, which
-- imported bundles are accepted, how trips are set against odometer readings, which operations are
-- admitted and when, what preparation may store, and the small services around them.
--
-- Parts of the program, and the files that model them:
-- * app/detector/core.py, `detect`: the points are filtered (Detector/Filter), clustered into
--   index ranges (Detector/Ranges), made into stays (Detector/Stays), changed by the overrides of
--   the user (Detector/Overrides), and joined into trips (Detector/Trips). The dataclasses and the
--   distance are in Detector/Model. A function has the name of the Python function, without the
--   leading underscore; a loop or a condition inside of one is a function of its own.
-- * app/detector/reconcile.py, `plan_reconcile`: which stored trip a new trip replaces
--   (Detector/Reconcile). The candidates are a record in place of a tuple.
-- * app/merge.py, `plan_merge_selected`: the suppress ranges that merge selected trips
--   (Detector/Merge), which `detect` applies as overrides.
-- * app/portable/normalize.py, `normalize_bundle`, with `parse_finite_number` of
--   app/validation.py and the constants of app/portable/format.py: the check of an imported bundle
--   (Portable). Portable/Json is what `json.loads` returns, Portable/Values has the checks of
--   single values, Portable/Rows the loop over the rows of a list, and Portable/Vehicles (with the
--   mileage rates), Places (with the tag rules), Trips, Expenses (with the odometer readings) and
--   Bundle a function `*_row` for each loop body. A set of seen keys is read off the accepted rows,
--   an issue is its place and its text without the quoted values, and an exception that leaves
--   `normalize_bundle` is `none`. Dates, decimals, floats and time zones are the operations of a
--   record (Portable/Platform), of which nothing is assumed.
-- * app/odometer.py, `reconcile`: odometer readings against the trips between them (Odometer). The
--   rest of that file, the report's coverage lines and the reminder, is not modelled.
-- * app/capacity.py, `AdmissionManager`: Capacity, with the lanes in Capacity/Lanes and the check
--   of the configuration in Capacity/Config. `operation` is `acquire`, then `leave` when its wait
--   fails, or `end_operation`; Capacity/Steps puts them into any order, with `shutdown`. Borrows
--   and leases are in Capacity/Leases. Pools and threads are not modelled.
-- * app/preparation_resources.py, `ResourceBudget` and `ChargedFile`, the budget of a spool
--   directory (Preparation), and the reservations of an instance (Preparation/Registry,
--   `SpoolReservation`). Preparation/Steps and Preparation/Registry/Limit put the calls into any
--   order.
-- * app/provider_pacing.py, `ProviderPacer`: Pacing, with the orders of calls in Pacing/Fifo.
-- * app/vehicles.py, the table of vehicles: Vehicles, each SQL statement a function of the rows,
--   and each call the statements that it executes. Vehicles/Default states what an account sees of
--   them.
-- * app/storage_limits.py, the limit editor: StorageLimits; the SQL functions that it calls are
--   parameters.
-- * app/trip_warnings.py, with the columns of app/trip_queries.py: TripWarnings.
-- * app/missing_trip.py, with `describe_endpoint` of app/places_desc.py: MissingTrip.
-- * app/rates.py, `rate_for`: Rates.
--
-- Numbers: an instant is a number of microseconds, by which aware datetimes are compared, and a
-- duration in seconds is given in microseconds. Floating-point operations are not modelled: they
-- are the fields of a record (Floats), and nothing is assumed of them. A difference of instants
-- that the program makes a float of is the operation `seconds`.
--
-- Fuel: a `while` loop over the indices of a track with `n` points takes `n` as its fuel. Each
-- round moves an index towards a bound that is at most `n` away, so the fuel is never short; the
-- theorems on the ranges hold of the functions with this fuel and have no hypothesis on it. The loop
-- of a write takes as many rounds as there are bytes; that this is enough is among the results.
--
-- Not modelled: the database (app/detector/runner.py, queries and transactions), the web pages and
-- their forms, authentication, notifications, geocoding and snapping, scripts and assets. Of the
-- preparation, file modes, ownership checks and failures of the operating system beside a name that
-- is taken or missing; of the admission, the managed pools and the threads of an operation. Two
-- processes that write to one file of a spool at once are not modelled: each call is one step.
pub mod Prelude
pub mod Floats
pub mod Detector
pub mod Portable
pub mod Odometer
pub mod StorageLimits
pub mod Pacing
pub mod Rates
pub mod MissingTrip
pub mod TripWarnings
pub mod Capacity
pub mod Vehicles
pub mod Preparation
