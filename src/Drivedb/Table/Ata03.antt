-- ===== src/Drivedb/Table/Ata03.antt =====
-- backends/exec/drivedb.h, lines 4219 to 4368.
use Prim.Native.String.{String}

unfoldable pub ata_text_03 : String
ata_text_03 =
    "    \"\", \"\",\n  //\"-v 23,raw48,Helium_Condition_Lower \" // ] >= 12TB\n  //\"-v 24,raw48,Helium_Condition_Upper \" // ]\n    \"-v 27,raw48,MAMR_Health_Monitor\" // HDWG51J/0104\n  },\n  { \"Toshiba P300 (CMR)\", // tested with TOSHIBA HDWD120/MX4OACF0\n    \"TOSHIBA HDWD1(05|10|20|30)\",\n    \"\", \"\", \"\"\n  },\n  { \"Toshiba P300 (SMR)\", // tested with TOSHIBA HDWD240/KQ000A\n    \"TOSHIBA HDWD2[246]0\",\n    \"\", \"\", \"\"\n  },\n  { \"Toshiba S300 (SMR)\", // tested with TOSHIBA HDWT860/KQ0H1L\n    \"TOSHIBA HDWT(7[24]|8[46])0\",\n    \"\", \"\", \"\"\n  },\n  { \"Toshiba X300\", // tested with TOSHIBA HDWE160/FS2A, TOSHIBA HDWF180/GX0B\n      // TOSHIBA HDWR480/0601\n    \"TOSHIBA HDW(E1[456]0|[FR]180|R(4[468]0|11A|21[CE]|31[EG]|51J))\", // 4n0:nTB, 11A:10TB,\n      // 21C:12TB, 21E:14TB, 31E:14TB, 31G:16TB, 51J:18TB\n    \"\", \"\", \"\"\n  //\"-v 23,raw48,Helium_Condition_Lower \" // ] >= 12TB\n  //\"-v 24,raw48,Helium_Condition_Upper\"  // ]\n  },\n  { \"Toshiba L200 (CMR)\",\n    \"TOSHIBA HDW[JK]1(05|10)\",\n    \"\", \"\", \"\"\n  },\n  { \"Toshiba L200 (SMR)\", // tested with TOSHIBA HDWL110/JU000A. TOSHIBA HDWL120/JT000A\n    \"TOSHIBA HDWL1[12]0\",\n    \"\", \"\", \"\"\n  },\n  { \"Toshiba 1.8\\\" HDD\",\n    \"TOSHIBA MK[23468]00[4-9]GA[HL]\",\n    \"\", \"\", \"\"\n  },\n  { \"Toshiba 1.8\\\" HDD MK..29GSG\",\n    \"TOSHIBA MK(12|16|25)29GSG\",\n    \"\", \"\", \"\"\n  },\n  { \"\", // TOSHIBA MK6022GAX\n    \"TOSHIBA MK6022GAX\",\n    \"\", \"\", \"\"\n  },\n  { \"Toshiba HK4R Series SSD\", // TOSHIBA THNSN8960PCSE/8EET6101,\n      // TOSHIBA THNSN81Q92CSE/8ENP6101\n    \"TOSHIBA THNSN8(120P|240P|480P|960P|1Q92)CSE\",\n    \"\", \"\",\n    \"-v 167,raw48,SSD_Protect_Mode \"\n    \"-v 168,raw48,SATA_PHY_Error_Count \"\n    \"-v 169,raw48,Bad_Block_Count \"\n    \"-v 173,raw48,Erase_Count \"\n    \"-v 241,raw48,Host_Writes_32MiB \"\n    \"-v 242,raw48,Host_Reads_32MiB\"\n  },\n  { \"Toshiba HG6 Series SSD\", // TOSHIBA THNSNJ512GCST/JTRA0102\n    // https://www.farnell.com/datasheets/1852757.pdf\n    // TOSHIBA THNSFJ256GCSU/JULA1102\n    // TOSHIBA THNSFJ256GDNU A/JYLA1102\n    \"TOSHIBA THNS[NF]J(060|128|256|512)G[BCAM8VD][SCN][TU].*\",\n    \"\", \"\",\n    \"-v 167,raw48,SSD_Protect_Mode \"\n    \"-v 168,raw48,SATA_PHY_Error_Count \"\n    \"-v 169,raw48,Bad_Block_Count \"\n    \"-v 173,raw48,Erase_Count \"\n  },\n  { \"\", // TOSHIBA MK6409MAV\n    \"TOSHIBA MK6409MAV\",\n    \"\", \"\", \"\"\n  },\n  { \"Toshiba MKx019GAXB (SUN branded)\",\n    \"TOS MK[34]019GAXB SUN[34]0G\",\n    \"\", \"\", \"\"\n  },\n  { \"Seagate Momentus\",\n    \"ST9(20|28|40|48)11A\",\n    \"\", \"\", \"\"\n  },\n  { \"Seagate Momentus 42\",\n    \"ST9(2014|3015|4019)A\",\n    \"\", \"\", \"\"\n  },\n  { \"Seagate Momentus 4200.2\", // tested with ST960812A/3.05\n    \"ST9(100822|808210|60812|50212|402113|30219)A\",\n    \"\", \"\", \"\"\n  },\n  { \"Seagate Momentus 5400.2\",\n    \"ST9(808211|6082[12]|408114|308110|120821|10082[34]|8823|6812|4813|3811)AS?\",\n    \"\", \"\", \"\"\n  },\n  { \"Seagate Momentus 5400.3\",\n    \"ST9(4081[45]|6081[35]|8081[15]|100828|120822|160821)AS?\",\n    \"\", \"\", \"\"\n  },\n  { \"Seagate Momentus 5400.3 ED\",\n    \"ST9(4081[45]|6081[35]|8081[15]|100828|120822|160821)AB\",\n    \"\", \"\", \"\"\n  },\n  { \"Seagate Momentus 5400.4\",\n    \"ST9(120817|(160|200|250)827)AS\",\n    \"\", \"\", \"\"\n  },\n  { \"Seagate Momentus 5400.5\",\n    \"ST9((80|120|160)310|(250|320)320)AS\",\n    \"\", \"\", \"\"\n  },\n  { \"Seagate Momentus 5400.6\",\n    \"ST9(80313|160(301|314)|(12|25)0315|250317|(320|500)325|500327|640320)ASG?\",\n    \"\", \"\",\n    \"-F xerrorlba\" // ST9500325AS/0002SDM1 (ticket #1094)\n  },\n  { \"Seagate Momentus 5400.7\",\n    \"ST9(160316|(250|320)310|(500|640)320)AS\",\n    \"\", \"\", \"\"\n  },\n  { \"Seagate Momentus 5400.7 (AF)\", // tested with ST9640322AS/0001BSM2\n      // (device reports 4KiB LPS with 1 sector offset)\n    \"ST9(320312|400321|640322|750423)AS\",\n    \"\", \"\", \"\"\n  },\n  { \"Seagate Momentus 5400 PSD\", // Hybrid drives\n    \"ST9(808212|(120|160)8220)AS\",\n    \"\", \"\", \"\"\n  },\n  { \"Seagate Momentus 7200.1\",\n    \"ST9(10021|80825|6023|4015)AS?\",\n    \"\", \"\", \"\"\n  },\n  { \"Seagate Momentus 7200.2\",\n    \"ST9(80813|100821|120823|160823|200420)ASG?\",\n    \"\", \"\", \"\"\n  },\n  { \"Seagate Momentus 7200.3\",\n    \"ST9((80|120|160)411|(250|320)421)ASG?\",\n    \"\", \"\", \"\"\n  },\n  { \"Seagate Momentus 7200.4\", // tested with ST9500420AS/0002SDM1\n    \"ST9(160412|250410|320423|500420)ASG?\",\n    \"\", \"\",\n    \"-v 1,raw24/raw32 -v 7,raw24/raw32 -v 188,raw16 \"\n    \"-v 195,raw24/raw32,ECC_On_the_Fly_Count \"\n    \"-v 240,msec24hour32\"\n  },\n  { \"Seagate Momentus 7200 FDE.2\",\n    \"ST9((160413|25041[12]|320426|50042[12])AS|(16041[489]|2504[16]4|32042[67]|500426)ASG)\",\n    \"\", \"\", \"\"\n  },\n  { \"Seagate Momentus 7200.5\", // tested with ST9750420AS/0001SDM5, ST9750420AS/0002SDM1\n    \"ST9(50042[34]|64042[012]|75042[02])ASG?\","
