-- ===== src/Drivedb/Table/Ata05.antt =====
-- backends/exec/drivedb.h, lines 4519 to 4668.
use Prim.Native.String.{String}

unfoldable pub ata_text_05 : String
ata_text_05 =
    "  },\n  { \"Seagate Barracuda 7200.11\", // unknown firmware\n    \"ST3(160813|320[68]13|500[368]20|640[36]23|640[35]30|750[36]30|1000(333|[36]40)|1500341)AS?\",\n    \"\",\n    \"There are known problems with these drives,\\n\"\n    \"see the following Seagate web pages:\\n\"\n    \"https://knowledge.seagate.com/articles/en_US/FAQ/207931en\\n\"\n    \"https://knowledge.seagate.com/articles/en_US/FAQ/207951en\\n\"\n    \"https://knowledge.seagate.com/articles/en_US/FAQ/207957en\",\n    \"\"\n  },\n  { \"Seagate Barracuda 7200.12\", // new firmware, tested with ST3500418AS/HP34\n    \"ST3(160318|250318|320418|50041[08]|750528|1000528)AS\",\n    \"CC4[9A-Z]|HP34\", // HP34: 180 Unknown_HDD_Attribute\n    \"\", \"\"\n  },\n  { \"Seagate Barracuda 7200.12\", // unknown firmware\n    \"ST3(160318|250318|320418|50041[08]|750528|1000528)AS\",\n    \"\",\n    \"A firmware update for this drive may be available,\\n\"\n    \"see the following Seagate web pages:\\n\"\n    \"https://knowledge.seagate.com/articles/en_US/FAQ/207931en\\n\"\n    \"https://knowledge.seagate.com/articles/en_US/FAQ/213891en\",\n    \"\"\n  },\n  { \"Seagate Barracuda 7200.12\", // tested with ST3160316AS/JC45, ST3250312AS/JC45,\n      // ST3500413AS/JC47, ST3500413AS/JC4B, ST3750525AS/JC4B, ST31000524AS/JC45,\n      // ST31000524AS/JC4B\n    \"ST3(160318|25031[128]|320418|50041[038]|750(518|52[358])|100052[348]|320413|160316)AS\",\n    \"\", \"\", \"\"\n    \"-v 188,raw16 -v 240,msec24hour32\"\n  },\n  { \"Seagate Barracuda XT\", // tested with ST32000641AS/CC13,\n      // ST4000DX000-1C5160/CC42\n    \"ST(3(2000641|3000651)AS|4000DX000-.*)\",\n    \"\", \"\", \"\"\n  },\n  { \"Seagate Barracuda 7200.14 (AF)\", // new firmware, tested with\n      // ST3000DM001-9YN166/CC4H, ST3000DM001-9YN166/CC9E\n    \"ST(1000|1500|2000|2500|3000)DM00[1-3]-9YN16.\",\n    \"CC(4[H-Z]|[5-9A-Z]..*)\", // >= \"CC4H\"\n    \"\",\n    \"-v 188,raw16 -v 240,msec24hour32\" // tested with ST3000DM001-9YN166/CC4H\n  },\n  { \"Seagate Barracuda 7200.14 (AF)\", // old firmware, tested with\n      // ST1000DM003-9YN162/CC46\n    \"ST(1000|1500|2000|2500|3000)DM00[1-3]-9YN16.\",\n    \"CC4[679CG]\",\n    \"A firmware update for this drive is available,\\n\"\n    \"see the following Seagate web pages:\\n\"\n    \"https://knowledge.seagate.com/articles/en_US/FAQ/207931en\\n\"\n    \"https://knowledge.seagate.com/articles/en_US/FAQ/223651en\",\n    \"-v 188,raw16 -v 240,msec24hour32\"\n  },\n  { \"Seagate Barracuda 7200.14 (AF)\", // unknown firmware\n    \"ST(1000|1500|2000|2500|3000)DM00[1-3]-9YN16.\",\n    \"\",\n    \"A firmware update for this drive may be available,\\n\"\n    \"see the following Seagate web pages:\\n\"\n    \"https://knowledge.seagate.com/articles/en_US/FAQ/207931en\\n\"\n    \"https://knowledge.seagate.com/articles/en_US/FAQ/223651en\",\n    \"-v 188,raw16 -v 240,msec24hour32\"\n  },\n  { \"Seagate Barracuda 7200.14 (AF)\", // different part number, tested with\n      // ST1000DM003-1CH162/CC47, ST1000DM003-1CH162/CC49, ST2000DM001-1CH164/CC24,\n      // ST1000DM000-9TS15E/CC92, APPLE HDD ST3000DM001/AP15 (no attr 240),\n      // APPLE HDD ST1000DM003/AP18\n    \"ST(1000|1500|2000|2500|3000)DM00[0-3]-.*|\"\n    \"APPLE HDD ST([13]000DM00[13])\",\n    \"\", \"\",\n    \"-v 188,raw16 -v 240,msec24hour32\"\n  },\n  { \"Seagate Barracuda 7200.14 (AF)\", // < 1TB, tested with ST250DM000-1BC141\n    \"ST(250|320|500|750)DM00[0-3]-.*\",\n    \"\", \"\",\n    \"-v 188,raw16 -v 240,msec24hour32\"\n  },\n  { \"Seagate BarraCuda 3.5 (CMR)\", // tested with ST1000DM010-2EP102/CC43, ST3000DM008-2DM166/CC26\n    \"ST(500DM009|1000DM010|2000DM00[67]|3000DM00[89]|4000DM005)-.*\",\n    \"\", \"\",\n    \"-v 200,raw48,Pressure_Limit \"\n    \"-v 188,raw16 -v 240,msec24hour32\"\n  },\n  { \"Seagate BarraCuda 3.5 (SMR)\", // tested with ST2000DM008-2FR102/0001,\n      // ST4000DM004-2CV104/0001 (TRIM: no), ST4000DM005-2DP166/0001, ST8000DM004-2CX188/0001\n    \"ST(2000DM00[58]|3000DM007|[48]000DM004|6000DM003)-.*\",\n    \"\", \"\",\n    \"-v 9,msec24hour32 \" // ST4000DM004-2CV104/0001\n    \"-v 200,raw48,Pressure_Limit \"\n    \"-v 188,raw16 -v 240,msec24hour32\"\n  },\n  { \"Seagate Desktop HDD.15\", // tested with ST4000DM000-1CD168/CC43, ST5000DM000-1FK178/CC44,\n      // ST6000DM001-1XY17Z/CC48\n    \"ST[4568]000DM00[012]-.*\",\n    \"\", \"\",\n    \"-v 188,raw16 -v 240,msec24hour32\"\n  },\n  { \"Seagate Desktop SSHD\", // tested with ST2000DX001-1CM164/CC43\n    \"ST[124]000DX001-.*\",\n    \"\", \"\",\n    \"-v 188,raw16 -v 240,msec24hour32\"\n  },\n  { \"Seagate Barracuda LP\", // new firmware\n    \"ST3(500412|1000520|1500541|2000542)AS\",\n    \"CC3[5-9A-Z]\",\n    \"\",\n    \"\" // -F xerrorlba ?\n  },\n  { \"Seagate Barracuda LP\", // unknown firmware\n    \"ST3(500412|1000520|1500541|2000542)AS\",\n    \"\",\n    \"A firmware update for this drive may be available,\\n\"\n    \"see the following Seagate web pages:\\n\"\n    \"https://knowledge.seagate.com/articles/en_US/FAQ/207931en\\n\"\n    \"https://knowledge.seagate.com/articles/en_US/FAQ/213915en\",\n    \"-F xerrorlba\" // tested with ST31000520AS/CC32\n  },\n  { \"Seagate Barracuda Green (AF)\", // new firmware\n    \"ST((10|15|20)00DL00[123])-.*\",\n    \"CC(3[2-9A-Z]|[4-9A-Z]..*)\", // >= \"CC32\"\n    \"\", \"\"\n  },\n  { \"Seagate Barracuda Green (AF)\", // unknown firmware\n    \"ST((10|15|20)00DL00[123])-.*\",\n    \"\",\n    \"A firmware update for this drive may be available,\\n\"\n    \"see the following Seagate web pages:\\n\"\n    \"https://knowledge.seagate.com/articles/en_US/FAQ/207931en\\n\"\n    \"https://knowledge.seagate.com/articles/en_US/FAQ/218171en\",\n    \"\"\n  },\n  { \"Seagate Barracuda ES\",\n    \"ST3(250[68]2|32062|40062|50063|75064)0NS\",\n    \"\", \"\", \"\"\n  },\n  { \"Seagate BarraCuda 2.5\", // tested with ST2000LM015-2E8174/SDM1,\n      // ST4000LM024-2AN17V/0001, ST5000LM000-2AN170/0001, ST1000LM049-2GH172/SDM1\n      // 7200rpm: ST500LM034, ST1000LM049\n    \"ST(500LM03[04]|1000LM04[89]|2000LM015|[34]000LM024|5000LM000)-.*\",\n    \"\", \"\",\n    \"-v 1,raw24/raw32 -v 7,raw24/raw32 \"\n    \"-v 183,raw48,SATA_Downshift_Count \"\n    \"-v 188,raw16\"\n  },\n  { \"Seagate Barracuda ES.2\", // fixed firmware\n    \"ST3(25031|50032|75033|100034)0NS\",\n    \"SN[01]6|\"         // https://knowledge.seagate.com/articles/en_US/FAQ/207963en\n    \"MA(0[^7]|[^0].)\",\n    \"\",\n    \"-F xerrorlba\" // tested with ST31000340NS/SN06"
